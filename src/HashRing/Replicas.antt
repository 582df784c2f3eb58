-- ===== src/HashRing/Replicas.antt =====
-- The members of a preference list: different addresses, all from the ring, none missing.
use load_tester_project.Base.{
  ℕ, true, false, List, [], ◌∷◌, Bytes, ◌≡◌, ◌⊎◌, inl, inr, arith, Bool-cases, str_eq, str_eq_iff,
  All, All-map, Any, Any-flip, All-append, All-split,
}
use load_tester_project.Base.StdMap.{lower_bound, before, before-append-lower_bound}
use load_tester_project.Base.StdSet.{contains, insert, contains-insert}
use load_tester_project.Backend.{Backend, node_id}
use load_tester_project.Backend.Identity.{SameAddress, node_id-eq, node_id-injective}
use load_tester_project.HashRing.{HashRing, hash_string}
use load_tester_project.HashRing.Walk.{Entries, backends_of, distinct, turn, preference}

-- No two members have one address.
abbrev pub AllDifferent : List Backend → Type 0
AllDifferent [] = Unit
AllDifferent (b ∷ bs) = All (λ c. ¬ SameAddress c b) bs × AllDifferent bs

distinct-unseen :
    (seen : List Bytes) (bs : List Backend)
    → All (λ b. contains (node_id b) seen ≡ false) (distinct seen bs)
unfolding distinct
distinct-unseen seen [] = tt
distinct-unseen seen (b ∷ bs) = elim (Bool-cases (contains (node_id b) seen)) [
  | inl old ↦ rw old (distinct-unseen seen bs)
  | inr new ↦ rw new (
    new,
    All-map _ _
        (λ c (h : contains (node_id c) (insert (node_id b) seen) ≡ false).
          ground (arith, contains-insert (node_id c) (node_id b) seen))
        (distinct (insert (node_id b) seen) bs) (distinct-unseen (insert (node_id b) seen) bs),
  )
]

new_differs :
    (b : Backend) (seen : List Bytes) (c : Backend)
    → contains (node_id c) (insert (node_id b) seen) ≡ false
    → ¬ SameAddress c b
new_differs b seen c h same = ground (
  arith,
  contains-insert (node_id c) (node_id b) seen,
  (str_eq_iff (node_id c) (node_id b)).1 (node_id-eq c b same),
)

pub distinct-AllDifferent :
    (seen : List Bytes) (bs : List Backend) → AllDifferent (distinct seen bs)
unfolding distinct
distinct-AllDifferent seen [] = tt
distinct-AllDifferent seen (b ∷ bs) = elim (Bool-cases (contains (node_id b) seen)) [
  | inl old ↦ rw old (distinct-AllDifferent seen bs)
  | inr new ↦ rw new (
    All-map (λ c. contains (node_id c) (insert (node_id b) seen) ≡ false) _ (new_differs b seen)
        (distinct (insert (node_id b) seen) bs) (distinct-unseen (insert (node_id b) seen) bs),
    distinct-AllDifferent (insert (node_id b) seen) bs,
  )
]

-- Nothing is invented.
pub distinct-All :
    (P : Backend → Type 0) (seen : List Bytes) (bs : List Backend)
    → All P bs
    → All P (distinct seen bs)
unfolding distinct
distinct-All P seen [] h = tt
distinct-All P seen (b ∷ bs) h = elim (Bool-cases (contains (node_id b) seen)) [
  | inl old ↦ rw old (distinct-All P seen bs h.1)
  | inr new ↦ rw new (h.0, distinct-All P (insert (node_id b) seen) bs h.1)
]

seen_now :
    (b c : Backend) (seen : List Bytes)
    → contains (node_id b) (insert (node_id c) seen) ≡ true
    → SameAddress b c ⊎ (contains (node_id b) seen ≡ true)
seen_now b c seen h = elim (Bool-cases (str_eq (node_id b) (node_id c))) [
  | inl same ↦ inl (node_id-injective b c ((str_eq_iff _ _).0 same))
  | inr other ↦ inr (ground (arith, contains-insert (node_id b) (node_id c) seen))
]

-- Every address that occurs and is not seen already is kept.
distinct-Any :
    (b : Backend) (seen : List Bytes) (bs : List Backend)
    → Any (SameAddress b) bs
    → (contains (node_id b) seen ≡ true) ⊎ Any (SameAddress b) (distinct seen bs)
unfolding distinct
distinct-Any b seen [] h = elim h [ ]
distinct-Any b seen (c ∷ bs) (inl same) = elim (Bool-cases (contains (node_id c) seen)) [
  | inl old ↦ inl (rw (node_id-eq b c same) old)
  | inr new ↦ rw new (inr (inl same))
]
distinct-Any b seen (c ∷ bs) (inr later) = elim (Bool-cases (contains (node_id c) seen)) [
  | inl old ↦ rw old (distinct-Any b seen bs later)
  | inr new ↦ rw new (elim (distinct-Any b (insert (node_id c) seen) bs later) [
    | inr kept ↦ inr (inr kept)
    | inl was ↦ elim (seen_now b c seen was) [ inl same ↦ inr (inl same) | inr old ↦ inl old ]
  ])
]

distinct_complete :
    (b : Backend) (bs : List Backend)
    → Any (SameAddress b) bs
    → Any (SameAddress b) (distinct [] bs)
distinct_complete b bs h = elim (distinct-Any b [] bs h) [
  | inl seen ↦ unfold contains in cc
  | inr kept ↦ kept
]

module _ {κ} (P : Backend → Type κ) where
  pub All-backends_of : (es : Entries) → All (λ e. P e.1) es → All P (backends_of es)
  All-backends_of [] h = tt
  All-backends_of (e ∷ es) h = (h.0, All-backends_of es h.1)

Any-backends_of :
    (P : Backend → Type 0) (es : Entries) → Any (λ e. P e.1) es → Any P (backends_of es)
Any-backends_of P [] h = elim h [ ]
Any-backends_of P (e ∷ es) (inl h) = inl h
Any-backends_of P (e ∷ es) (inr h) = inr (Any-backends_of P es h)

All-turn {κ} : (P : ℕ × Backend → Type κ) (k : ℕ) (m : Entries) → All P m → All P (turn k m)
unfolding turn
All-turn P k m h =
    let (low, high) = All-split P (before k m) (lower_bound k m) (rw before-append-lower_bound h) in
    All-append P (lower_bound k m) (before k m) high low

module _ (hasher : Bytes → ℕ) (key : Bytes) (h : HashRing) where
  -- What holds of every entry's backend holds of every preferred one.
  pub preference-All :
      (P : Backend → Type 0) → All (λ e. P e.1) h.ring → All P (preference hasher key h)
  unfolding preference
  preference-All P a = distinct-All P [] _ (
      All-backends_of P (turn (hash_string hasher key) h.ring)
        (All-turn (λ e. P e.1) (hash_string hasher key) h.ring a))

  pub preference-AllDifferent : AllDifferent (preference hasher key h)
  unfolding preference
  preference-AllDifferent = distinct-AllDifferent [] _

  -- Every backend of the ring is preferred by every key, at some place.
  pub preference-Any :
      (b : Backend)
      → Any (λ e. SameAddress b e.1) h.ring
      → Any (SameAddress b) (preference hasher key h)
  unfolding preference turn
  preference-Any b a =
      let k = hash_string hasher key in
      distinct_complete b _ (
        Any-backends_of (SameAddress b) (turn k h.ring) (
          Any-flip (λ e. SameAddress b e.1) (before k h.ring) (lower_bound k h.ring)
            (rw before-append-lower_bound a)))
