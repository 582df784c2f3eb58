-- ===== src/Database.antt =====
-- PostgreSQL behind libpqxx, which the repository does not contain: the statements that
-- kvserver.cpp runs, as an interface, with the documented meaning of each on the table `kv_data`
-- (`key TEXT PRIMARY KEY, value TEXT NOT NULL`).
use load_tester_project.Base.Streams.{c_str}
use load_tester_project.Base.{
  All, Any, AllApart, List, [], ◌∷◌, Option, none, some, Bytes, ◌≡◌, ◌≢◌, ◌⊎◌, inl, inr, refl,
  if◌then◌else◌, str_eq,
}

-- What a call of the library comes to. Both exceptions carry their `what()`.
pub data Exec {ℓ} (A : Type ℓ) : Type ℓ where
  done : A → Exec A
  unique_violation : Bytes → Exec A
  failed : Bytes → Exec A

infixl 5 ◌>>=◌
abbrev pub ◌>>=◌ {ℓ κ} : {A : Type ℓ} {B : Type κ} → Exec A → (A → Exec B) → Exec B
done a >>= f = f a
unique_violation what >>= f = unique_violation what
failed what >>= f = failed what

pub Exec-cases {ℓ} :
    {A : Type ℓ} (e : Exec A)
    → ((a : A) × (e ≡ done a))
      ⊎ ((what : Bytes) × (e ≡ unique_violation what))
      ⊎ ((what : Bytes) × (e ≡ failed what))
Exec-cases (done a) = inl (a, refl)
Exec-cases (unique_violation what) = inr (inl (what, refl))
Exec-cases (failed what) = inr (inr (what, refl))

-- What a commit comes to. An exception carries its `what()`, and the database if the transaction was
-- committed all the same: `pqxx::in_doubt_error` leaves that open.
pub data Commit {ℓ} (A : Type ℓ) : Type ℓ where
  committed : A → Commit A
  thrown : Bytes → Option A → Commit A

pub Commit-cases {ℓ} :
    {A : Type ℓ} (e : Commit A)
    → ((a : A) × (e ≡ committed a))
      ⊎ (((what : Bytes) × (e ≡ thrown what none))
          ⊎ ((what : Bytes) × (a : A) × (e ≡ thrown what (some a))))
Commit-cases (committed a) = inl (a, refl)
Commit-cases (thrown what none) = inr (inl (what, refl))
Commit-cases (thrown what (some a)) = inr (inr (what, a, refl))

pub data Statement : Type 0 where
  -- INSERT INTO kv_data (key, value) VALUES ($1, $2)
  insert : Bytes → Bytes → Statement
  -- INSERT … ON CONFLICT (key) DO UPDATE SET value = EXCLUDED.value RETURNING key
  upsert : Bytes → Bytes → Statement
  -- UPDATE kv_data SET value=$1 WHERE key=$2 RETURNING key
  update : Bytes → Bytes → Statement
  -- DELETE FROM kv_data WHERE key=$1 RETURNING key
  delete : Bytes → Statement
  -- SELECT value FROM kv_data WHERE key=$1
  select_value : Bytes → Statement
  -- SELECT key FROM kv_data
  select_keys : Statement

abbrev pub Contents : Type 0
Contents = Bytes → Option Bytes

abbrev pub written : Contents → Bytes → Option Bytes → Contents
written t k v = λ q. if str_eq q k then v else t q

-- The keys of a table, each once, in any order.
pub record IsListing (t : Contents) (rows : List Bytes) : Type 0 where
  pub listed : (q : Bytes) → t q ≢ none → Any (λ r. r ≡ q) rows
  pub there : All (λ r. t r ≢ none) rows
  pub once : AllApart rows

-- The rows that a statement returns on a table, one column each.
abbrev pub rows_of : Option Bytes → List Bytes
rows_of none = []
rows_of (some v) = v ∷ []

abbrev pub key_row : Bytes → Option Bytes → List Bytes
key_row k none = []
key_row k (some v) = k ∷ []

pub record Database : Type 1 where
  pub Db : Type 0
  -- The committed table.
  pub contents : Db → Contents
  -- `pqxx::connection(…)` and `pqxx::work`: the `what()` of the exception, if there is one.
  pub connect : Db → Option Bytes
  -- `txn.exec_params` and `txn.exec`: the database as the transaction sees it, and the rows.
  pub exec : Statement → Db → Exec (Db × List Bytes)
  -- `txn.commit()` of what the transaction made of the database. The primary key is not deferrable,
  -- so it is checked when a statement runs, not here.
  pub commit : Db → Commit Db
  pub insert_law :
      (k v : Bytes) (db db' : Db) (rows : List Bytes)
      → exec (insert k v) db ≡ done (db', rows)
      → (contents db k ≡ none) × ((q : Bytes) → contents db' q ≡ written (contents db) k (some v) q)
  pub violation_law :
      (k v what : Bytes) (db : Db)
      → exec (insert k v) db ≡ unique_violation what
      → contents db k ≢ none
  pub upsert_law :
      (k v : Bytes) (db db' : Db) (rows : List Bytes)
      → exec (upsert k v) db ≡ done (db', rows)
      → (rows ≡ k ∷ []) × ((q : Bytes) → contents db' q ≡ written (contents db) k (some v) q)
  pub update_law :
      (k v : Bytes) (db db' : Db) (rows : List Bytes)
      → exec (update k v) db ≡ done (db', rows)
      → (rows ≡ key_row k (contents db k))
        × (contents db k ≢ none → (q : Bytes) → contents db' q ≡ written (contents db) k (some v) q)
  pub delete_law :
      (k : Bytes) (db db' : Db) (rows : List Bytes)
      → exec (delete k) db ≡ done (db', rows)
      → (rows ≡ key_row k (contents db k))
        × ((q : Bytes) → contents db' q ≡ written (contents db) k none q)
  pub select_value_law :
      (k : Bytes) (db db' : Db) (rows : List Bytes)
      → exec (select_value k) db ≡ done (db', rows)
      → rows ≡ rows_of (contents db k)
  -- One row for each key.
  pub select_keys_law :
      (db db' : Db) (rows : List Bytes)
      → exec select_keys db ≡ done (db', rows)
      → IsListing (contents db) rows
  pub commit_law :
      (db db' : Db) → commit db ≡ committed db' → (q : Bytes) → contents db' q ≡ contents db q
  pub in_doubt_law :
      (db db' : Db) (what : Bytes)
      → commit db ≡ thrown what (some db')
      → (q : Bytes) → contents db' q ≡ contents db q
  -- A TEXT value holds no NUL.
  pub text_law : (db : Db) (k v : Bytes) → contents db k ≡ some v → c_str v ≡ v
