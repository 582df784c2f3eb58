-- ===== src/KvServer/Store.antt =====
-- What the server promises: a store of one value for each key, on which calls come one after another.
use load_tester_project.Base.{
  if◌then◌else◌, ◌++◌, refl, str_eq, Bool, codes, ◌==◌, ℕ, List, [], ◌∷◌, Option, none, some, Bytes,
  ◌≡◌, ◌≢◌, ◌⊎◌, inl, inr, ◌∙◌, arith, true, false, str_eq_iff,
}
use load_tester_project.Base.Streams.{c_str}
use load_tester_project.Database.{Contents, written, IsListing}
use load_tester_project.KvServer.{Request, Response, split_body}
use load_tester_project.KvServer.Routes.{
  Handler, create, update, remove, all_keys, read, health, sync,
}

-- The store: a table, and the keys in doubt.
pub record State : Type 0 where
  pub table : Contents
  pub doubt : Bytes → Bool

-- The lines of a listing. A key holds no NUL, and `c_str` reads one up to there.
unfoldable pub lines_of : List Bytes → Bytes
lines_of [] = []
lines_of (key ∷ keys) = c_str key ++ (codes "\n" ++ lines_of keys)

abbrev pub Stays : Contents → Contents → Type 0
Stays t t' = (q : Bytes) → t' q ≡ t q

abbrev pub Sets : Contents → Bytes → Option Bytes → Contents → Type 0
Sets t k v t' = (q : Bytes) → t' q ≡ written t k v q

-- A reply that is no failure, and the table behind it.
abbrev pub Succeeds : Handler → Request → State → Response → Contents → Type 0
Succeeds create req m r t' =
    let key = (split_body req.body).0 in
    ((r.status ≡ 201) × (m.table key ≡ none) × Sets m.table key (some (split_body req.body).1) t')
    ⊎ ((r.status ≡ 409) × (m.table key ≢ none) × Stays m.table t')
Succeeds update req m r t' =
    ((r.status ≡ 200)
      × ((m.table req.matched ≢ none) ⊎ (req.is_replication ≡ true))
      × Sets m.table req.matched (some req.body) t')
    ⊎ ((r.status ≡ 404)
        × (m.table req.matched ≡ none)
        × (req.is_replication ≡ false)
        × Stays m.table t')
Succeeds remove req m r t' =
    ((r.status ≡ 200) × (m.table req.matched ≢ none) × Sets m.table req.matched none t')
    ⊎ ((r.status ≡ 404) × (m.table req.matched ≡ none) × Stays m.table t')
Succeeds read req m r t' =
    ((r.status ≡ 200)
      × ((m.doubt req.matched ≡ true) ⊎ (m.table req.matched ≡ some r.content))
      × Stays m.table t')
    ⊎ ((r.status ≡ 404) × (m.table req.matched ≡ none) × Stays m.table t')
Succeeds all_keys req m r t' =
    (r.status ≡ 200)
    × ((keys : List Bytes) × IsListing m.table keys × (r.content ≡ lines_of keys))
    × Stays m.table t'
Succeeds health req m r t' = (r.status ≡ 200) × (r.content ≡ codes "OK") × Stays m.table t'
Succeeds sync req m r t' = (r.status ≡ 201) × Sets m.table req.matched (some req.body) t'

-- What a call that fails may have done all the same.
abbrev pub TookEffect : Handler → Request → State → Contents → Type 0
TookEffect create req m t' =
    let key = (split_body req.body).0 in
    (m.table key ≡ none) × Sets m.table key (some (split_body req.body).1) t'
TookEffect update req m t' = Sets m.table req.matched (some req.body) t'
TookEffect remove req m t' = Sets m.table req.matched none t'
TookEffect sync req m t' = Sets m.table req.matched (some req.body) t'
TookEffect read req m t' = ⊥
TookEffect all_keys req m t' = ⊥
TookEffect health req m t' = ⊥

-- The doubt behind a reply: an update, a removal or a sync with status 500 puts its key in doubt,
-- and one that succeeds ends the doubt.
abbrev pub doubt_after : Handler → Request → (Bytes → Bool) → Response → Bytes → Bool
doubt_after update req x r q =
    if str_eq q req.matched then (if r.status == 404 then x q else r.status == 500) else x q
doubt_after remove req x r q =
    if str_eq q req.matched then (if r.status == 404 then x q else r.status == 500) else x q
doubt_after sync req x r q =
    if str_eq q req.matched then (if r.status == 404 then x q else r.status == 500) else x q
doubt_after create req x r q = x q
doubt_after read req x r q = x q
doubt_after all_keys req x r q = x q
doubt_after health req x r q = x q

abbrev pub Allows : Handler → Request → State → Response → Contents → Type 0
Allows h req m r t' =
    Succeeds h req m r t' ⊎ ((r.status ≡ 500) × (Stays m.table t' ⊎ TookEffect h req m t'))

-- The replies to a sequence of calls.
pub data History : List (Handler × Request) → State → List Response → State → Type 0 where
  ends : {m : State} → History [] m [] m
  calls :
      {h : Handler} {req : Request} {cs : List (Handler × Request)} {m m' : State} {t : Contents}
      {r : Response} {rs : List Response}
      → Allows h req m r t
      → History cs (record { table = t; doubt = doubt_after h req m.doubt r }) rs m'
      → History ((h, req) ∷ cs) m (r ∷ rs) m'

-- The key that a call may change.
abbrev pub changed_key : Handler × Request → Option Bytes
changed_key (create, req) = some (split_body req.body).0
changed_key (update, req) = some req.matched
changed_key (remove, req) = some req.matched
changed_key (sync, req) = some req.matched
changed_key (read, req) = none
changed_key (all_keys, req) = none
changed_key (health, req) = none

Sets-other :
    (t t' : Contents) (k j : Bytes) (v : Option Bytes)
    → Sets t j v t'
    → ◌≢◌ {A = Option Bytes} (some j) (some k)
    → t' k ≡ t k
Sets-other t t' k j v h ne = h k ∙ ground (arith, str_eq_iff k j, ne)

TookEffect-other :
    (h : Handler) (req : Request) (m : State) (t' : Contents) (k : Bytes)
    → changed_key (h, req) ≢ some k
    → TookEffect h req m t'
    → t' k ≡ m.table k
TookEffect-other create req m t' k ne (n, sets) = Sets-other m.table t' k _ _ sets ne
TookEffect-other update req m t' k ne sets = Sets-other m.table t' k _ _ sets ne
TookEffect-other remove req m t' k ne sets = Sets-other m.table t' k _ _ sets ne
TookEffect-other sync req m t' k ne sets = Sets-other m.table t' k _ _ sets ne
TookEffect-other read req m t' k ne e = absurd e
TookEffect-other all_keys req m t' k ne e = absurd e
TookEffect-other health req m t' k ne e = absurd e

-- A call leaves the value of another key as it is.
pub Allows-other :
    (h : Handler) (req : Request) (m : State) (t' : Contents) (r : Response) (k : Bytes)
    → changed_key (h, req) ≢ some k
    → Allows h req m r t'
    → t' k ≡ m.table k
Allows-other h req m t' r k ne (inr (failed, inl stays)) = stays k
Allows-other h req m t' r k ne (inr (failed, inr effect)) = TookEffect-other h req m t' k ne effect
Allows-other create req m t' r k ne (inl (inl (s, n, sets))) = Sets-other m.table t' k _ _ sets ne
Allows-other create req m t' r k ne (inl (inr (s, n, stays))) = stays k
Allows-other update req m t' r k ne (inl (inl (s, n, sets))) = Sets-other m.table t' k _ _ sets ne
Allows-other update req m t' r k ne (inl (inr (s, n, o, stays))) = stays k
Allows-other remove req m t' r k ne (inl (inl (s, n, sets))) = Sets-other m.table t' k _ _ sets ne
Allows-other remove req m t' r k ne (inl (inr (s, n, stays))) = stays k
Allows-other read req m t' r k ne (inl (inl (s, n, stays))) = stays k
Allows-other read req m t' r k ne (inl (inr (s, n, stays))) = stays k
Allows-other all_keys req m t' r k ne (inl (s, n, stays)) = stays k
Allows-other health req m t' r k ne (inl (s, n, stays)) = stays k
Allows-other sync req m t' r k ne (inl (s, sets)) = Sets-other m.table t' k _ _ sets ne

settled-other :
    (j k : Bytes) (x : Bytes → Bool) (r : Response)
    → ◌≢◌ {A = Option Bytes} (some j) (some k)
    → (if str_eq k j then (if r.status == 404 then x k else r.status == 500) else x k) ≡ x k
settled-other j k x r ne = ground (arith, str_eq_iff k j, ne)

-- And the doubt about it.
pub doubt_after-other :
    (h : Handler) (req : Request) (x : Bytes → Bool) (r : Response) (k : Bytes)
    → changed_key (h, req) ≢ some k
    → doubt_after h req x r k ≡ x k
doubt_after-other update req x r k ne = settled-other req.matched k x r ne
doubt_after-other remove req x r k ne = settled-other req.matched k x r ne
doubt_after-other sync req x r k ne = settled-other req.matched k x r ne
doubt_after-other create req x r k ne = refl
doubt_after-other read req x r k ne = refl
doubt_after-other all_keys req x r k ne = refl
doubt_after-other health req x r k ne = refl

-- The key and the value that a call stores, if it succeeds, and the status that says so.
abbrev pub stored_pair : Handler → Request → Option (Bytes × Bytes)
stored_pair create req = some (split_body req.body)
stored_pair update req = some (req.matched, req.body)
stored_pair sync req = some (req.matched, req.body)
stored_pair remove req = none
stored_pair read req = none
stored_pair all_keys req = none
stored_pair health req = none

abbrev pub success : Handler → ℕ
success create = 201
success sync = 201
success update = 200
success remove = 200
success read = 200
success all_keys = 200
success health = 200

Sets-self :
    (t t' : Contents) (k v j w : Bytes)
    → Sets t j (some w) t'
    → ◌≡◌ {A = Option (Bytes × Bytes)} (some (j, w)) (some (k, v))
    → t' k ≡ some v
Sets-self t t' k v j w h e =
    let key : j ≡ k = ground (arith, e) in
    let value : w ≡ v = ground (arith, e) in h k ∙ ground (arith, str_eq_iff k j, key, value)

pub Allows-stored :
    (h : Handler) (req : Request) (m : State) (t' : Contents) (r : Response) (k v : Bytes)
    → stored_pair h req ≡ some (k, v)
    → r.status ≡ success h
    → Allows h req m r t'
    → t' k ≡ some v
Allows-stored create req m t' r k v e ok (inr (failed, effect)) = absurd (omega (arith, failed, ok))
Allows-stored create req m t' r k v e ok (inl (inl (s, n, sets))) =
    Sets-self m.table t' k v _ _ sets e
Allows-stored create req m t' r k v e ok (inl (inr (s, n, stays))) = absurd (omega (arith, s, ok))
Allows-stored update req m t' r k v e ok (inr (failed, effect)) = absurd (omega (arith, failed, ok))
Allows-stored update req m t' r k v e ok (inl (inl (s, n, sets))) =
    Sets-self m.table t' k v _ _ sets e
Allows-stored update req m t' r k v e ok (inl (inr (s, n, o, stays))) =
    absurd (omega (arith, s, ok))
Allows-stored sync req m t' r k v e ok (inr (failed, effect)) = absurd (omega (arith, failed, ok))
Allows-stored sync req m t' r k v e ok (inl (s, sets)) = Sets-self m.table t' k v _ _ sets e
Allows-stored remove req m t' r k v e ok a = absurd (cc e)
Allows-stored read req m t' r k v e ok a = absurd (cc e)
Allows-stored all_keys req m t' r k v e ok a = absurd (cc e)
Allows-stored health req m t' r k v e ok a = absurd (cc e)

-- A call that stores a value on a store without doubt about the key leaves none.
pub no_doubt-stored :
    (h : Handler) (req : Request) (r : Response) (x : Bytes → Bool) (k v : Bytes)
    → stored_pair h req ≡ some (k, v)
    → r.status ≡ success h
    → x k ≡ false
    → doubt_after h req x r k ≡ false
no_doubt-stored create req r x k v e ok n = n
no_doubt-stored update req r x k v e ok n = ground (arith, ok, n)
no_doubt-stored sync req r x k v e ok n = ground (arith, ok, n)
no_doubt-stored remove req r x k v e ok n = absurd (cc e)
no_doubt-stored read req r x k v e ok n = absurd (cc e)
no_doubt-stored all_keys req r x k v e ok n = absurd (cc e)
no_doubt-stored health req r x k v e ok n = absurd (cc e)
