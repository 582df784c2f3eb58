-- ===== src/Tests/Table.antt =====
-- A database for the runs: the table as a list of rows, always connected. A value with a NUL is
-- refused, as PostgreSQL refuses it.
use load_tester_project.Base.{
  Bool, List, [], ◌∷◌, map, none, some, Bytes, codes, ◌≡◌, ◌≢◌, inl, inr, refl, sym, ap, ◌∙◌, arith,
  if◌then◌else◌, Bool-cases, Option-cases, str_eq, str_eq_iff, true,
}
use load_tester_project.Base.UnorderedMap.{
  find, assign, erase, find-assign, find-erase, string_keys,
}
use load_tester_project.Base.Streams.{c_str}
use load_tester_project.Database.{
  Database, Exec, done, unique_violation, failed, Statement, insert, upsert, update, delete,
  select_value, select_keys, Contents, written, rows_of, key_row, Commit, committed, IsListing,
}
use mathlib.Core.Path.{subst}
use load_tester_project.Base.StdSet.{
  insert_all, contains, contains-insert_all_new, contains-Any, insert_all-All, insert_all-AllApart,
}
use load_tester_project.Base.{All-map}

abbrev pub Rows : Type 0
Rows = List (Bytes × Bytes)

pub contents_of : Rows → Contents
contents_of db k = elim (find k db) [ none ↦ none | some v ↦ some (c_str v) ]

pub is_text : Bytes → Bool
is_text v = str_eq (c_str v) v

pub stored : Bytes → Bytes → Rows → Exec (Rows × List Bytes)
unfolding is_text
stored k v db =
    if is_text v then done (assign k v db, k ∷ []) else failed (codes "invalid byte sequence")

pub exec : Statement → Rows → Exec (Rows × List Bytes)
unfolding stored contents_of
exec (insert k v) db = elim (find k db) [
  | some _ ↦ unique_violation (codes "duplicate key")
  | none ↦ stored k v db
]
exec (upsert k v) db = stored k v db
exec (update k v) db = elim (find k db) [ none ↦ done (db, []) | some _ ↦ stored k v db ]
exec (delete k) db = done (erase k db, key_row k (contents_of db k))
exec (select_value k) db = done (db, rows_of (contents_of db k))
exec select_keys db = done (db, insert_all [] (map (λ r. r.0) db))

c_str_idem : (v : Bytes) → c_str (c_str v) ≡ c_str v
unfolding c_str
c_str_idem [] = refl
c_str_idem (c ∷ v) = ground (arith, c_str_idem v)

pub stored_law :
    (k v : Bytes) (db db' : Rows) (rows : List Bytes)
    → stored k v db ≡ done (db', rows)
    → (rows ≡ k ∷ []) × ((q : Bytes) → contents_of db' q ≡ written (contents_of db) k (some v) q)
unfolding stored contents_of
stored_law k v db db' rows e = elim (Bool-cases (is_text v)) [
  | inr bad ↦ absurd (ground (arith, bad, e))
  | inl good ↦
      let text : c_str v ≡ v = (str_eq_iff (c_str v) v).0 (unfold is_text in good) in
      let db_eq : assign k v db ≡ db' = ground (arith, good, e) in
      (ground (arith, good, e), λ q. rw (← db_eq) (ground (arith, find-assign k q v db, text)))
]

pub insert_law :
    (k v : Bytes) (db db' : Rows) (rows : List Bytes)
    → exec (insert k v) db ≡ done (db', rows)
    → (contents_of db k ≡ none)
      × ((q : Bytes) → contents_of db' q ≡ written (contents_of db) k (some v) q)
unfolding exec
insert_law k v db db' rows e = elim (Option-cases (find k db)) [
  | inr (w, there) ↦ absurd (ground (arith, there, e))
  | inl absent ↦
      (ground (arith, absent), (stored_law k v db db' rows (ground (arith, absent, e))).1)
]

pub update_law :
    (k v : Bytes) (db db' : Rows) (rows : List Bytes)
    → exec (update k v) db ≡ done (db', rows)
    → (rows ≡ key_row k (contents_of db k))
      × (contents_of db k ≢ none
          → (q : Bytes) → contents_of db' q ≡ written (contents_of db) k (some v) q)
unfolding exec
update_law k v db db' rows e = elim (Option-cases (find k db)) [
  | inl absent ↦ (ground (arith, absent, e), λ ne. absurd (ne (ground (arith, absent))))
  | inr (w, there) ↦
      let law = stored_law k v db db' rows (ground (arith, there, e)) in
      (law.0 ∙ ground (arith, there), λ _. law.1)
]

pub delete_law :
    (k : Bytes) (db db' : Rows) (rows : List Bytes)
    → exec (delete k) db ≡ done (db', rows)
    → (rows ≡ key_row k (contents_of db k))
      × ((q : Bytes) → contents_of db' q ≡ written (contents_of db) k none q)
unfolding exec contents_of
delete_law k db db' rows e =
    let db_eq : erase k db ≡ db' = ground (arith, e) in
    (ground (arith, e), λ q. rw (← db_eq) (ground (arith, find-erase k q db)))

pub text_law : (db : Rows) (k v : Bytes) → contents_of db k ≡ some v → c_str v ≡ v
unfolding contents_of
text_law db k v e = elim (Option-cases (find k db)) [
  | inl absent ↦ absurd (ground (arith, absent, e))
  | inr (w, there) ↦ ground (arith, there, e, c_str_idem w)
]

pub violation_law :
    (k v what : Bytes) (db : Rows)
    → exec (insert k v) db ≡ unique_violation what
    → contents_of db k ≢ none
unfolding exec contents_of
violation_law k v what db e = elim (Option-cases (find k db)) [
  | inr (w, there) ↦ ground (arith, there)
  | inl absent ↦ absurd (ground (arith, absent, e))
]

pub select_value_law :
    (k : Bytes) (db db' : Rows) (rows : List Bytes)
    → exec (select_value k) db ≡ done (db', rows)
    → rows ≡ rows_of (contents_of db k)
unfolding exec
select_value_law k db db' rows e = ground (arith, e)

listed_key :
    (q : Bytes) (db : Rows) → contents_of db q ≢ none → contains q (map (λ r. r.0) db) ≡ true
unfolding contents_of find contains
listed_key q [] h = absurd (h refl)
listed_key q ((k, v) ∷ db) h = elim (Bool-cases (str_eq q k)) [
  | inl hit ↦ ground (arith, hit)
  | inr miss ↦ ground (arith, miss, listed_key q db (λ e. h (ground (arith, miss, e))))
]

key_there :
    (q : Bytes) (db : Rows) → contains q (map (λ r. r.0) db) ≡ true → contents_of db q ≢ none
unfolding contents_of find contains
key_there q [] h = absurd (cc h)
key_there q ((k, v) ∷ db) h = elim (Bool-cases (str_eq q k)) [
  | inl hit ↦ λ e. absurd (ground (arith, hit, e))
  | inr miss ↦ λ e. key_there q db (ground (arith, miss, h)) (ground (arith, miss, e))
]

keys_listed : (db : Rows) → IsListing (contents_of db) (insert_all [] (map (λ r. r.0) db))
keys_listed db = record {
  listed = λ q h. contains-Any q _ (contains-insert_all_new q [] _ (listed_key q db h));
  there = All-map _ _ (λ q c. key_there q db c) _ (insert_all-All _);
  once = insert_all-AllApart [] (map (λ r. r.0) db) tt;
}

pub select_keys_law :
    (db db' : Rows) (rows : List Bytes)
    → exec select_keys db ≡ done (db', rows)
    → IsListing (contents_of db) rows
unfolding exec
select_keys_law db db' rows e =
    let same : insert_all [] (map (λ r. r.0) db) ≡ rows = ground (arith, e) in
    subst (IsListing (contents_of db)) same (keys_listed db)

pub commit_law :
    (db db' : Rows)
    → ◌≡◌ {A = Commit Rows} (committed db) (committed db')
    → (q : Bytes) → contents_of db' q ≡ contents_of db q
commit_law db db' e q =
    let same : db ≡ db' = ground (arith, e) in ap (λ t. contents_of t q) (sym same)

unfoldable pub table : Database
unfolding exec contents_of
table = record {
  Db = Rows;
  contents = contents_of;
  connect = λ db. none;
  exec = exec;
  commit = λ db. committed db;
  insert_law = insert_law;
  violation_law = violation_law;
  upsert_law = λ k v db db' rows e. stored_law k v db db' rows e;
  update_law = update_law;
  delete_law = delete_law;
  select_value_law = select_value_law;
  commit_law = commit_law;
  in_doubt_law = λ db db' what e. absurd (cc e);
  select_keys_law = select_keys_law;
  text_law = text_law;
}
