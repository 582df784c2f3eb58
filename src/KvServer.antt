-- ===== src/KvServer.antt =====
-- kvserver.cpp: the handlers of a server over its database and its cache. The audit log that
-- `handle_read` appends to, the console output and the thread pool are left out.
pub mod Coherence
pub mod Outcomes
pub mod Writes
pub mod Updates
pub mod Reads
pub mod Race
pub mod Routes
pub mod Store
pub mod Port
pub mod Service
use load_tester_project.Base.{
  ℕ, Bool, true, false, not, ◌&&◌, List, [], ◌∷◌, ◌++◌, Option, none, some, Bytes, codes, ◌==◌,
  if◌then◌else◌,
}
use load_tester_project.Base.Streams.{c_str, getline}
use load_tester_project.Database.{
  Database, Exec, done, unique_violation, failed, Commit, committed, thrown, Statement, insert,
  upsert, update, delete, select_value, select_keys,
}
use load_tester_project.Database as Sql
use load_tester_project.LruCache.{LruCache, ◌>>=◌}
use load_tester_project.LruCache as Cache

-- What the handlers read of an `httplib::Request`: `matches[1]`, the body, and whether the header
-- `X-Internal-Replication` is there.
pub record Request : Type 0 where
  pub matched : Bytes
  pub body : Bytes
  pub is_replication : Bool

-- What they set in an `httplib::Response`; the type of the content is always text/plain.
pub record Response : Type 0 where
  pub status : ℕ
  pub content : Bytes
  pub connection_close : Bool

reply : ℕ → Bytes → Response
reply status content = record { status = status; content = content; connection_close = true }

-- `catch (const std::exception &e)`
error_reply : Bytes → Response
unfolding reply
error_reply what = reply 500 (codes "Error: " ++ what)

-- The key and the value in the body of a create request.
unfoldable pub split_body : Bytes → Bytes × Bytes
unfolding getline
split_body body =
    let (key, rest) = getline b' ' body in let (value, _) = getline b'\n' rest in (key, value)

-- The query of `handle_update`.
unfoldable pub update_statement : Request → Statement
update_statement req =
    if req.is_replication then upsert req.matched req.body else update req.matched req.body

module _ (d : Database) where
  pub record Server : Type 0 where
    pub cache : LruCache
    pub db : d.Db

  -- `get_connection()`, `pqxx::work txn(conn)` and one statement.
  unfoldable pub run_statement : Statement → d.Db → Exec (d.Db × List Bytes)
  run_statement st db = elim (d.connect db) [ none ↦ d.exec st db | some what ↦ failed what ]

  -- The server behind an exception of a commit.
  unfoldable pub leaving : Server → Option d.Db → Server
  leaving s none = s
  leaving s (some db) = record s { db = db }

  -- `handle_create`
  unfoldable pub handle_create : Request → Server → Option (Response × Server)
  unfolding run_statement split_body reply error_reply leaving
  handle_create req s =
      let (key, value) = split_body req.body in
      elim (run_statement (insert key value) s.db) [
        | done r ↦ elim (d.commit r.0) [
          | committed db' ↦ do
            created ← Cache.create_key key value s.cache
            some (reply 201 (codes "Created Successfully"), record { cache = created.1; db = db' })
          | thrown what made ↦ some (error_reply what, leaving s made)
        ]
        | unique_violation what ↦ some (reply 409 (codes "Error: Key already exists"), s)
        | failed what ↦ some (error_reply what, s)
      ]

  -- `try { … } catch (const std::exception &e) { … }`: the rest of the body on a result, and the
  -- reply with status 500 on an exception, in the state in which it is thrown.
  try_catch :
      {A : Type 0} → Exec A → Server → (A → Option (Response × Server)) → Option (Response × Server)
  unfolding error_reply
  try_catch (done a) s body = body a
  try_catch (unique_violation what) s body = some (error_reply what, s)
  try_catch (failed what) s body = some (error_reply what, s)

  -- The same for a commit.
  try_commit :
      Commit d.Db → Server → (d.Db → Option (Response × Server)) → Option (Response × Server)
  unfolding error_reply leaving
  try_commit (committed db) s body = body db
  try_commit (thrown what made) s body = some (error_reply what, leaving s made)

  -- `r.empty()`
  unfoldable pub no_rows : List Bytes → Bool
  no_rows [] = true
  no_rows (r ∷ rows) = false

  -- `handle_delete`
  unfoldable pub handle_delete : Request → Server → Option (Response × Server)
  unfolding run_statement reply try_catch try_commit no_rows
  handle_delete req s = try_catch (run_statement (delete req.matched) s.db) s λ r.
      if no_rows r.1
      then some (reply 404 (codes "Key Not Found\n"), s)
      else try_commit (d.commit r.0) s λ db'. (do
        deleted ← Cache.delete_key req.matched s.cache
        some (reply 200 (codes "Deleted Successfully\n"), record { cache = deleted.1; db = db' }))

  -- The part of `handle_read` behind the cache: the rows of the query.
  unfoldable pub query_value : Bytes → d.Db → Exec (List Bytes)
  unfolding run_statement
  query_value key db =
      Sql.◌>>=◌ (run_statement (select_value key) db) (λ (r : d.Db × List Bytes). done r.1)

  -- What `handle_read` does with the rows.
  unfoldable pub answer_rows : Bytes → List Bytes → Server → Option (Response × Server)
  unfolding reply
  answer_rows key [] s = some (reply 404 (codes "Key not Found\n"), s)
  answer_rows key (v ∷ rows) s = do
    created ← Cache.create_key key (c_str v) s.cache
    some (reply 200 (c_str v), record s { cache = created.1 })

  -- `!cache_value.empty()` and both branches of it.
  unfoldable pub answer_cached : Bytes → Bytes → Server → Option (Response × Server)
  unfolding reply try_catch query_value answer_rows
  answer_cached key [] s = try_catch (query_value key s.db) s λ rows. answer_rows key rows s
  answer_cached key (c ∷ value) s = some (reply 200 (c ∷ value), s)

  -- `handle_read`
  unfoldable pub handle_read : Request → Server → Option (Response × Server)
  unfolding answer_cached
  handle_read req s = do
    hit ← Cache.read_key req.matched s.cache
    answer_cached req.matched hit.0 (record s { cache = hit.1 })

  -- `handle_update`
  unfoldable pub handle_update : Request → Server → Option (Response × Server)
  unfolding run_statement reply try_catch try_commit no_rows
  handle_update req s = try_catch (run_statement (update_statement req) s.db) s λ r.
      if no_rows r.1 && not req.is_replication
      then some (reply 404 (codes "Key not found in DB\n"), s)
      else try_commit (d.commit r.0) s λ db'. (do
        deleted ← Cache.delete_key req.matched s.cache
        some (reply 200 (codes "Updated Successfully\n"), record { cache = deleted.1; db = db' }))

  -- The loop of `handle_all_keys` over the rows.
  unfoldable pub join_lines : List Bytes → Bytes
  join_lines [] = []
  join_lines (row ∷ rows) = (c_str row ++ b'\n' ∷ []) ++ join_lines rows

  -- `handle_all_keys`
  unfoldable pub handle_all_keys : Request → Server → Option (Response × Server)
  unfolding run_statement reply try_catch join_lines
  handle_all_keys req s =
      try_catch (run_statement select_keys s.db) s λ r. some (reply 200 (join_lines r.1), s)

  -- `handle_sync`
  unfoldable pub handle_sync : Request → Server → Option (Response × Server)
  unfolding run_statement reply try_catch try_commit no_rows
  handle_sync req s = try_catch (run_statement (upsert req.matched req.body) s.db) s λ r.
      try_commit (d.commit r.0) s λ db'. (do
        deleted ← Cache.delete_key req.matched s.cache
        some (
          (if no_rows r.1
              then reply 200 (codes "Ignored: Never version already present\n")
              else reply 201 (codes "Synced Successfully\n")),
          record { cache = deleted.1; db = db' },
        ))

  -- The handler of `/health`, which sets no header.
  unfoldable pub handle_health : Request → Server → Option (Response × Server)
  handle_health req s =
      some (record { status = 200; content = codes "OK"; connection_close = false }, s)
