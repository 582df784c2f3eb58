-- ===== src/Base/Search.antt =====
-- `find` and more text behind what is searched.
use load_tester_project.Base.Tests.{Bool-cases, Option-cases}
use load_tester_project.Base.Lists.{length}
use load_tester_project.Base.Str.{Bytes, starts_with, find}
use Prim.Native.Nat.{ℕ, ◌+◌, ◌≤◌}
use mathlib.Core.Bool.{true}
use mathlib.Core.List.{[], ◌∷◌, ◌++◌}
use mathlib.Core.Logic.{inl, inr}
use mathlib.Core.Option.{some}
use mathlib.Core.Path.{◌≡◌, refl}
use native.Mathlib.Omega.{arith}

starts_with-append : (p s rest : Bytes) → starts_with p s ≡ true → starts_with p (s ++ rest) ≡ true
unfolding starts_with
starts_with-append [] s rest h = refl
starts_with-append (x ∷ p) [] rest h = cc
starts_with-append (x ∷ p) (c ∷ s) rest h = ground (arith, starts_with-append p s rest)

starts_with-length : (p s : Bytes) → starts_with p s ≡ true → length p ≤ length s
unfolding starts_with
starts_with-length [] s h = omega arith
starts_with-length (x ∷ p) [] h = cc
starts_with-length (x ∷ p) (c ∷ s) h = ground (arith, starts_with-length p s)

-- A match lies inside the text.
pub find_bound : (p s : Bytes) (i : ℕ) → find p s ≡ some i → i + length p ≤ length s
unfolding find
find_bound p [] i h = ground (arith, starts_with-length p [])
find_bound p (c ∷ s) i h = elim (Bool-cases (starts_with p (c ∷ s))) [
  | inl here ↦ ground (arith, here, starts_with-length p (c ∷ s) here)
  | inr later ↦ elim (Option-cases (find p s)) [
    | inl missing ↦ absurd (ground (arith, later, missing, h))
    | inr (j, found) ↦ ground (arith, later, found, h, find_bound p s j found)
  ]
]

-- A prefix that fits is found or not whatever comes behind it.
starts_with_cut :
    (p s rest : Bytes) → length p ≤ length s → starts_with p (s ++ rest) ≡ starts_with p s
unfolding starts_with
starts_with_cut [] s rest h = refl
starts_with_cut (x ∷ p) [] rest h = absurd (omega arith)
starts_with_cut (x ∷ p) (c ∷ s) rest h = ground (arith, starts_with_cut p s rest (omega arith))

found_empty : (p rest : Bytes) (i : ℕ) → find p [] ≡ some i → find p rest ≡ some i
unfolding find starts_with
found_empty [] [] i h = h
found_empty [] (c ∷ rest) i h = h
found_empty (x ∷ p) rest i h = cc

-- The first match stays the first match.
pub find-append : (p s rest : Bytes) (i : ℕ) → find p s ≡ some i → find p (s ++ rest) ≡ some i
unfolding find
find-append p [] rest i h = found_empty p rest i h
find-append p (c ∷ s) rest i h = elim (Bool-cases (starts_with p (c ∷ s))) [
  | inl here ↦ ground (arith, here, h, starts_with-append p (c ∷ s) rest here)
  | inr later ↦ elim (Option-cases (find p s)) [
    | inl missing ↦ absurd (ground (arith, later, missing, h))
    | inr (j, found) ↦ ground (
      arith,
      later,
      found,
      h,
      find-append p s rest j found,
      find_bound p s j found,
      starts_with_cut p (c ∷ s) rest,
    )
  ]
]
