-- ===== src/LruCache/Entries.antt =====
-- Properties of all pairs in the cache, through its operations.
use load_tester_project.Base.{
  ℕ, [], ◌∷◌, none, some, Bytes, ◌≡◌, ◌≢◌, inl, inr, arith, leb, if◌then◌else◌, Bool-cases,
  Option-cases, length, All, All-select, str_eq, str_eq_iff, str_eq_refl, ◌∙◌,
}
use load_tester_project.LruCache.Spec.{Pairs, lookup, remove, but_last, read, create, delete}

pub All-lookup :
    (P : Bytes × Bytes → Type 0) (k v : Bytes) (l : Pairs)
    → All P l
    → lookup k l ≡ some v
    → P (k, v)
unfolding lookup
All-lookup P k v [] a e = absurd (cc)
All-lookup P k v ((j, w) ∷ l) a e = elim (Bool-cases (str_eq k j)) [
  | inl hit ↦
      let key : k ≡ j = (str_eq_iff k j).0 hit in
      let value : w ≡ v = ground (arith, hit, e) in rw (key, ← value) a.0
  | inr miss ↦ All-lookup P k v l a.1 (ground (arith, miss, e))
]

All-but_last : (P : Bytes × Bytes → Type 0) (l : Pairs) → All P l → All P (but_last l)
unfolding but_last
All-but_last P [] a = tt
All-but_last P (e ∷ []) a = tt
All-but_last P (e ∷ f ∷ l) a = (a.0, All-but_last P (f ∷ l) a.1)

pub All-read : (P : Bytes × Bytes → Type 0) (k : Bytes) (l : Pairs) → All P l → All P (read k l).1
unfolding read remove
All-read P k l a = elim (Option-cases (lookup k l)) [
  | inl miss ↦ rw (miss, read) a
  | inr (v, hit) ↦ rw (hit, read) (All-lookup P k v l a hit, All-select P _ l a)
]

pub All-create :
    (P : Bytes × Bytes → Type 0) (capacity : ℕ) (k v : Bytes) (l : Pairs)
    → P (k, v)
    → All P l
    → All P (create capacity k v l).1
unfolding create
All-create P capacity k v l p a = elim (Option-cases (lookup k l)) [
  | inr (w, hit) ↦ rw (hit, create) a
  | inl miss ↦ elim (Bool-cases (leb capacity (length l))) [
    | inl full ↦ rw (miss, create, full) (p, All-but_last P l a)
    | inr room ↦ rw (miss, create, room) (p, a)
  ]
]

other_keys :
    (P : Bytes × Bytes → Type 0) (k : Bytes) (l : Pairs)
    → All P l
    → All (λ e. P e × (e.0 ≢ k)) (remove k l)
unfolding remove
other_keys P k [] a = tt
other_keys P k ((j, w) ∷ l) a = elim (Bool-cases (str_eq k j)) [
  | inl hit ↦ rw hit (other_keys P k l a.1)
  | inr miss ↦ rw miss ((a.0, ground (arith, str_eq_iff k j)), other_keys P k l a.1)
]

absent_keys :
    (P : Bytes × Bytes → Type 0) (k : Bytes) (l : Pairs)
    → lookup k l ≡ none
    → All P l
    → All (λ e. P e × (e.0 ≢ k)) l
unfolding lookup
absent_keys P k [] e a = tt
absent_keys P k ((j, w) ∷ l) e a =
    ((a.0, ground (arith, e, str_eq_iff k j)), absent_keys P k l (ground (arith, e)) a.1)

-- After a deletion no pair has the key.
pub All-delete :
    (P : Bytes × Bytes → Type 0) (k : Bytes) (l : Pairs)
    → All P l
    → All (λ e. P e × (e.0 ≢ k)) (delete k l).1
unfolding delete
All-delete P k l a = elim (Option-cases (lookup k l)) [
  | inr (w, hit) ↦ rw (hit, delete) (other_keys P k l a)
  | inl miss ↦ rw (miss, delete) (absent_keys P k l miss a)
]

-- What a read returns: the value of the key, or the empty text.
pub read_value :
    (k : Bytes) (l : Pairs) → (v : Bytes) → (read k l).0 ≡ v → v ≢ [] → lookup k l ≡ some v
unfolding read
read_value k l v e ne = elim (Option-cases (lookup k l)) [
  | inl miss ↦ absurd (ground (arith, miss, e, ne))
  | inr (w, hit) ↦ ground (arith, hit, e)
]

pub lookup-remove :
    (k q : Bytes) (l : Pairs) → lookup q (remove k l) ≡ (if str_eq q k then none else lookup q l)
unfolding lookup remove
lookup-remove k q [] = ground arith
lookup-remove k q ((j, w) ∷ l) =
    ground (arith, str_eq_iff q k, str_eq_iff k j, str_eq_iff q j, lookup-remove k q l)

pub lookup-delete : (k : Bytes) (l : Pairs) → lookup k (delete k l).1 ≡ none
unfolding delete
lookup-delete k l = elim (Option-cases (lookup k l)) [
  | inr (w, hit) ↦ rw (hit, delete) (lookup-remove k k l ∙ rw (str_eq_refl k))
  | inl miss ↦ rw (miss, delete) miss
]

-- A new key is found with its value.
pub lookup-create :
    (capacity : ℕ) (k v : Bytes) (l : Pairs)
    → lookup k l ≡ none
    → lookup k (create capacity k v l).1 ≡ some v
unfolding create lookup
lookup-create capacity k v l e = ground (arith, e, str_eq_refl k)

pub read_hit : (k v : Bytes) (l : Pairs) → lookup k l ≡ some v → (read k l).0 ≡ v
unfolding read
read_hit k v l e = ground (arith, e)
