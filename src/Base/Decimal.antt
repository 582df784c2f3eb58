-- ===== src/Base/Decimal.antt =====
-- `std::to_string` on the integers that the source prints, and its inverse.
use load_tester_project.Base.Tests.{ltb, ◌==◌, if◌then◌else◌, Bool-cases}
use load_tester_project.Base.Lists.{All, All-append, All-map}
use load_tester_project.Base.Str.{Bytes}
use Prim.Native.Nat.{ℕ, zero, suc, ◌+◌, ◌-◌, ◌*◌, ◌/◌, ◌%◌, ◌≤◌, ◌<◌}
use mathlib.Core.Bool.{Bool, true, false}
use mathlib.Core.List.{[], ◌∷◌, ◌++◌}
use mathlib.Core.Logic.{inl, inr, ◌↔◌, ◌≢◌}
use mathlib.Core.Path.{◌≡◌, refl, sym, ap, ◌∙◌}
use native.Mathlib.Omega.{arith}

-- `negsuc n` is -(n + 1).
pub data ℤ : Type 0 where
  pos : ℕ → ℤ
  negsuc : ℕ → ℤ

unfoldable pub int_eq : ℤ → ℤ → Bool
int_eq (pos a) (pos b) = a == b
int_eq (negsuc a) (negsuc b) = a == b
int_eq _ _ = false

-- The fuel is one more than the number, which has fewer digits.
unfoldable pub digits_of : ℕ → ℕ → Bytes
digits_of zero n = []
digits_of (suc fuel) n =
    let upper = digits_of fuel (n / 10) ++ (b'0' + n % 10) ∷ [] in
    if ltb n 10 then (b'0' + n) ∷ [] else upper

unfoldable pub to_string : ℕ → Bytes
unfolding digits_of
to_string n = digits_of (suc n) n

unfoldable pub int_to_string : ℤ → Bytes
unfolding to_string
int_to_string (pos n) = to_string n
int_to_string (negsuc n) = b'-' ∷ to_string (suc n)

-- The number that a run of digits stands for.
unfoldable pub value_from : ℕ → Bytes → ℕ
value_from acc [] = acc
value_from acc (c ∷ s) = value_from (acc * 10 + (c - b'0')) s

value_from-snoc :
    (acc : ℕ) (s : Bytes) (c : ℕ)
    → value_from acc (s ++ c ∷ []) ≡ value_from acc s * 10 + (c - b'0')
unfolding value_from
value_from-snoc acc [] c = refl
value_from-snoc acc (d ∷ s) c = value_from-snoc (acc * 10 + (d - b'0')) s c

value_from-digits_of : (fuel n : ℕ) → n < fuel → value_from 0 (digits_of fuel n) ≡ n
unfolding digits_of
value_from-digits_of zero n h = elim h [ ]
value_from-digits_of (suc fuel) n h = elim (Bool-cases (ltb n 10)) [
  | inl small ↦ rw small (unfold value_from in omega arith)
  | inr large ↦ rw large (
      value_from-snoc 0 (digits_of fuel (n / 10)) (b'0' + n % 10)
      ∙ omega (arith, value_from-digits_of fuel (n / 10) (ground arith)))
]

pub value_from-to_string : (n : ℕ) → value_from 0 (to_string n) ≡ n
unfolding to_string
value_from-to_string n = value_from-digits_of (suc n) n (omega arith)

pub to_string-injective : (m n : ℕ) → to_string m ≡ to_string n → m ≡ n
unfolding to_string
to_string-injective m n e =
    sym (value_from-digits_of (suc m) m (omega arith))
    ∙ ap (value_from 0) e
    ∙ value_from-digits_of (suc n) n (omega arith)

abbrev pub IsDigit : ℕ → Type 0
IsDigit c = (b'0' ≤ c) × (c ≤ b'9')

digits_of-IsDigit : (fuel n : ℕ) → All IsDigit (digits_of fuel n)
unfolding digits_of
digits_of-IsDigit zero n = tt
digits_of-IsDigit (suc fuel) n = elim (Bool-cases (ltb n 10)) [
  | inl small ↦ rw small (ground arith)
  | inr large ↦ rw large (
      All-append IsDigit (digits_of fuel (n / 10)) _ (digits_of-IsDigit fuel (n / 10))
        (omega arith))
]

pub to_string-IsDigit : (n : ℕ) → All IsDigit (to_string n)
unfolding to_string
to_string-IsDigit n = digits_of-IsDigit (suc n) n

not_sign : (s t : Bytes) → All IsDigit s → s ≡ b'-' ∷ t → ⊥
not_sign [] t h e = cc
not_sign (c ∷ s) t h e = let c_eq : c ≡ b'-' = ground arith in omega arith

pub int_to_string-injective : (a b : ℤ) → int_to_string a ≡ int_to_string b → a ≡ b
unfolding int_to_string
int_to_string-injective (pos m) (pos n) e = ap pos (to_string-injective m n e)
int_to_string-injective (negsuc m) (negsuc n) e =
    let e' : suc m ≡ suc n = to_string-injective (suc m) (suc n) cc in ground arith
int_to_string-injective (pos m) (negsuc n) e =
    absurd (not_sign (to_string m) _ (to_string-IsDigit m) e)
int_to_string-injective (negsuc m) (pos n) e =
    absurd (not_sign (to_string n) _ (to_string-IsDigit n) (sym e))

-- No byte of a printed number is a colon.
pub int_to_string-no_colon : (a : ℤ) → All (λ c. c ≢ b':') (int_to_string a)
unfolding int_to_string
int_to_string-no_colon (pos n) =
    All-map IsDigit _ (λ c d. omega arith) (to_string n) (to_string-IsDigit n)
int_to_string-no_colon (negsuc n) = (
  omega arith,
  All-map IsDigit _ (λ c d. omega arith) (to_string (suc n)) (to_string-IsDigit (suc n)),
)

pub int_eq_iff : (a b : ℤ) → (int_eq a b ≡ true) ↔ (a ≡ b)
unfolding int_eq
int_eq_iff (pos a) (pos b) = ground arith
int_eq_iff (negsuc a) (negsuc b) = ground arith
int_eq_iff (pos a) (negsuc b) = ground arith
int_eq_iff (negsuc a) (pos b) = ground arith
