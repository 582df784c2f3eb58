-- ===== src/Base/StdMap.antt =====
-- `std::map` with integer keys: the list of its entries in the order of iteration. An iterator
-- is the list of the entries from it to the end, and `end()` is the empty list.
use load_tester_project.Base.Lists.{select, All, All-map, All-select, select_all, select_none}
use load_tester_project.Base.Tests.{ltb, leb, ◌==◌, if◌then◌else◌, Bool-cases}
use Prim.Native.Nat.{ℕ, ◌<◌}
use mathlib.Core.Bool.{true, false, not}
use mathlib.Core.List.{List, [], ◌∷◌, ◌++◌}
use mathlib.Core.Logic.{inl, inr}
use mathlib.Core.Option.{Option, none, some}
use mathlib.Core.Path.{◌≡◌, refl, sym, ap}
use native.Mathlib.Omega.{arith}

module _ {ℓ} {V : Type ℓ} where
  unfoldable pub find : ℕ → List (ℕ × V) → Option V
  find k [] = none
  find k ((j, w) ∷ m) = if k == j then some w else find k m

  -- `m[k] = v`
  unfoldable pub assign : ℕ → V → List (ℕ × V) → List (ℕ × V)
  assign k v [] = (k, v) ∷ []
  assign k v ((j, w) ∷ m) =
      let later = (j, w) ∷ assign k v m in
      if k == j then (k, v) ∷ m else if ltb k j then (k, v) ∷ (j, w) ∷ m else later

  -- `m.erase(k)`
  unfoldable pub erase : ℕ → List (ℕ × V) → List (ℕ × V)
  erase k m = select (λ e. not (k == e.0)) m

  -- `m.lower_bound(k)`: the first entry whose key is not below `k`.
  unfoldable pub lower_bound : ℕ → List (ℕ × V) → List (ℕ × V)
  lower_bound k [] = []
  lower_bound k ((j, w) ∷ m) = let later = lower_bound k m in if ltb j k then later else (j, w) ∷ m

  -- The entries that `lower_bound` passes over.
  unfoldable pub before : ℕ → List (ℕ × V) → List (ℕ × V)
  before k [] = []
  before k ((j, w) ∷ m) = let later = (j, w) ∷ before k m in if ltb j k then later else []

  -- The order that `std::map` keeps.
  abbrev pub IsSorted : List (ℕ × V) → Type ℓ
  IsSorted [] = Unit
  IsSorted ((k, v) ∷ m) = All (λ e. k < e.0) m × IsSorted m

module _ {ℓ} {V : Type ℓ} where
  pub find-assign :
      (k j : ℕ) (v : V) (m : List (ℕ × V))
      → find j (assign k v m) ≡ (if j == k then some v else find j m)
  unfolding find assign
  find-assign k j v [] = refl
  find-assign k j v ((i, w) ∷ m) = ground (arith, find-assign k j v m)

  pub find-erase :
      (k j : ℕ) (m : List (ℕ × V)) → find j (erase k m) ≡ (if j == k then none else find j m)
  unfolding find erase
  find-erase k j [] = ground arith
  find-erase k j ((i, w) ∷ m) = ground (arith, find-erase k j m)

  pub before-append-lower_bound : (k : ℕ) (m : List (ℕ × V)) → before k m ++ lower_bound k m ≡ m
  unfolding before lower_bound
  before-append-lower_bound k [] = refl
  before-append-lower_bound k ((j, w) ∷ m) = ground (arith, before-append-lower_bound k m)

module _ {ℓ} {V : Type ℓ} where
  pub All-assign {κ} :
      (P : ℕ × V → Type κ) (k : ℕ) (v : V) (m : List (ℕ × V))
      → P (k, v)
      → All P m
      → All P (assign k v m)
  unfolding assign
  All-assign P k v [] p h = (p, tt)
  All-assign P k v ((j, w) ∷ m) p h = elim (Bool-cases (k == j)) [
    | inl same ↦ rw same (p, h.1)
    | inr other ↦ elim (Bool-cases (ltb k j)) [
      | inl low ↦ rw (other, low) (p, h)
      | inr high ↦ rw (other, high) (h.0, All-assign P k v m p h.1)
    ]
  ]

  pub assign-IsSorted : (k : ℕ) (v : V) (m : List (ℕ × V)) → IsSorted m → IsSorted (assign k v m)
  unfolding assign
  assign-IsSorted k v [] h = (tt, tt)
  assign-IsSorted k v ((j, w) ∷ m) h = elim (Bool-cases (k == j)) [
    | inl same ↦ rw same (All-map _ _ (λ e (p : j < e.0). ground arith) m h.0, h.1)
    | inr other ↦ elim (Bool-cases (ltb k j)) [
      | inl low ↦
          rw (other, low) ((ground arith, All-map _ _ (λ e (p : j < e.0). ground arith) m h.0), h)
      | inr high ↦
          rw (other, high)
            (All-assign (λ e. j < e.0) k v m (ground arith) h.0, assign-IsSorted k v m h.1)
    ]
  ]

  pub erase-IsSorted : (k : ℕ) (m : List (ℕ × V)) → IsSorted m → IsSorted (erase k m)
  unfolding erase
  erase-IsSorted k [] h = tt
  erase-IsSorted k ((j, w) ∷ m) h = elim (Bool-cases (k == j)) [
    | inl same ↦ rw same (erase-IsSorted k m h.1)
    | inr other ↦ rw other (All-select (λ e. j < e.0) _ m h.0, erase-IsSorted k m h.1)
  ]

  find_above : (k : ℕ) (m : List (ℕ × V)) → All (λ e. k < e.0) m → find k m ≡ none
  unfolding find
  find_above k [] h = refl
  find_above k ((j, w) ∷ m) h = ground (arith, find_above k m h.1)

  tail_agrees :
      (k : ℕ) (v w : V) (m m' : List (ℕ × V))
      → All (λ e. k < e.0) m
      → All (λ e. k < e.0) m'
      → ((j : ℕ) → find j ((k, v) ∷ m) ≡ find j ((k, w) ∷ m'))
      → (j : ℕ) → find j m ≡ find j m'
  unfolding find
  tail_agrees k v w m m' h h' e j = ground (arith, e j, find_above k m h, find_above k m' h')

  -- Two maps with the same lookups are the same.
  pub map_ext :
      (m m' : List (ℕ × V)) → IsSorted m → IsSorted m' → ((k : ℕ) → find k m ≡ find k m') → m ≡ m'
  unfolding find
  map_ext [] [] s s' e = refl
  map_ext [] ((j, w) ∷ m') s s' e = absurd (ground (arith, e j))
  map_ext ((k, v) ∷ m) [] s s' e = absurd (ground (arith, e k))
  map_ext ((k, v) ∷ m) ((j, w) ∷ m') s s' e = elim (Bool-cases (k == j)) [
    | inl same ↦
        let k_eq : k ≡ j = ground arith in
        let v_eq : v ≡ w = ground (arith, e k) in
        let s₁ : All (λ x. k < x.0) m' = rw k_eq s'.0 in
        let e' : (i : ℕ) → find i ((k, v) ∷ m) ≡ find i ((k, w) ∷ m') =
          λ i. rw k_eq (rw k_eq at (e i)) in
        cc (k_eq, v_eq, map_ext m m' s.1 s'.1 (tail_agrees k v w m m' s.0 s₁ e'))
    | inr other ↦ elim (Bool-cases (ltb k j)) [
      | inl low ↦ absurd (
          ground
            (arith, e k, find_above k m' (All-map _ _ (λ x (p : j < x.0). ground arith) m' s'.0)))
      | inr high ↦ absurd (
          ground (arith, e j, find_above j m (All-map _ _ (λ x (p : k < x.0). ground arith) m s.0)))
    ]
  ]

  -- On a sorted map the iterator's entries are those with no smaller key.
  pub lower_bound-select :
      (k : ℕ) (m : List (ℕ × V)) → IsSorted m → lower_bound k m ≡ select (λ e. leb k e.0) m
  unfolding lower_bound
  lower_bound-select k [] s = refl
  lower_bound-select k ((j, w) ∷ m) s = elim (Bool-cases (ltb j k)) [
    | inl low ↦
        let skip : leb k j ≡ false = ground arith in rw (low, skip) (lower_bound-select k m s.1)
    | inr high ↦
        let keep : leb k j ≡ true = ground arith in
        rw (high, keep)
          (ap (◌∷◌ (j, w)) (sym (select_all (λ e. j < e.0) _ (λ e p. ground arith) m s.0)))
  ]

  pub before-select :
      (k : ℕ) (m : List (ℕ × V)) → IsSorted m → before k m ≡ select (λ e. ltb e.0 k) m
  unfolding before
  before-select k [] s = refl
  before-select k ((j, w) ∷ m) s = elim (Bool-cases (ltb j k)) [
    | inl low ↦ rw low (ap (◌∷◌ (j, w)) (before-select k m s.1))
    | inr high ↦ rw high (sym (select_none (λ e. j < e.0) _ (λ e p. ground arith) m s.0))
  ]
