-- ===== src/Base/UnorderedMap.antt =====
-- `std::unordered_map`: a list of entries. The standard leaves the order of iteration open; here
-- a new key comes last.
use load_tester_project.Base.Tests.{if◌then◌else◌, Bool-cases}
use load_tester_project.Base.Lists.{select}
use load_tester_project.Base.Str.{Bytes, str_eq, str_eq_iff}
use load_tester_project.Base.Decimal.{ℤ, int_eq, int_eq_iff}
use mathlib.Core.Bool.{Bool, true, not}
use mathlib.Core.List.{List, [], ◌∷◌, map}
use mathlib.Core.Logic.{◌↔◌, inl, inr}
use mathlib.Core.Option.{Option, none, some}
use mathlib.Core.Path.{◌≡◌, refl, ap}
use native.Mathlib.Omega.{arith}

pub record Eq {ℓ} (K : Type ℓ) : Type ℓ where
  pub beq : K → K → Bool
  pub beq_iff : (a b : K) → (beq a b ≡ true) ↔ (a ≡ b)

instance abbrev pub int_keys : Eq ℤ
int_keys = record { beq = int_eq; beq_iff = int_eq_iff }

instance abbrev pub string_keys : Eq Bytes
string_keys = record { beq = str_eq; beq_iff = str_eq_iff }

module _ {ℓ κ} {K : Type ℓ} {V : Type κ} ⦃e : Eq K⦄ where
  unfoldable pub find : K → List (K × V) → Option V
  find k [] = none
  find k ((j, w) ∷ m) = if e.beq k j then some w else find k m

  -- `m[k] = v`
  unfoldable pub assign : K → V → List (K × V) → List (K × V)
  assign k v [] = (k, v) ∷ []
  assign k v ((j, w) ∷ m) = if e.beq k j then (k, v) ∷ m else (j, w) ∷ assign k v m

  -- `m.erase(k)`
  unfoldable pub erase : K → List (K × V) → List (K × V)
  erase k m = select (λ x. not (e.beq k x.0)) m

  pub find-assign :
      (k j : K) (v : V) (m : List (K × V))
      → find j (assign k v m) ≡ (if e.beq j k then some v else find j m)
  unfolding find assign
  find-assign k j v [] = refl
  find-assign k j v ((i, w) ∷ m) =
      ground (arith, e.beq_iff k i, e.beq_iff j i, e.beq_iff j k, find-assign k j v m)

  pub find-erase :
      (k j : K) (m : List (K × V)) → find j (erase k m) ≡ (if e.beq j k then none else find j m)
  unfolding find erase
  find-erase k j [] = ground arith
  find-erase k j ((i, w) ∷ m) =
      ground (arith, e.beq_iff k i, e.beq_iff j i, e.beq_iff j k, find-erase k j m)

  -- The keys, in the order of the map.
  abbrev pub keys : List (K × V) → List K
  keys m = map (λ x. x.0) m

  pub keys-assign :
      (k : K) (v w : V) (m : List (K × V)) → find k m ≡ some w → keys (assign k v m) ≡ keys m
  unfolding find assign
  keys-assign k v w [] h = absurd (cc h)
  keys-assign k v w ((j, u) ∷ m) h = elim (Bool-cases (e.beq k j)) [
    | inl same ↦ rw (same, (e.beq_iff k j).0 same) refl
    | inr other ↦ rw other (ap (λ ks. j ∷ ks) (keys-assign k v w m (ground (arith, other, h))))
  ]
