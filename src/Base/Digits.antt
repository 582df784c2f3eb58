-- ===== src/Base/Digits.antt =====
-- How numbers are read from a text.
use load_tester_project.Base.Tests.{leb, ◌==◌, if◌then◌else◌}
use load_tester_project.Base.Str.{Bytes}
use load_tester_project.Base.Lists.{All}
use load_tester_project.Base.Decimal.{
  ℤ, pos, negsuc, IsDigit, to_string, to_string-IsDigit, value_from, value_from-to_string,
}
use Prim.Native.Nat.{ℕ, ◌+◌, ◌-◌, ◌*◌}
use mathlib.Core.Bool.{Bool, true, false, ◌&&◌}
use mathlib.Core.List.{[], ◌∷◌}
use mathlib.Core.Path.{◌≡◌, refl, ◌∙◌}
use native.Mathlib.Omega.{arith}

unfoldable pub is_digit : ℕ → Bool
is_digit c = leb b'0' c && leb c b'9'

-- The digits that a text begins with.
unfoldable pub leading_digits : Bytes → Bytes
unfolding is_digit
leading_digits [] = []
leading_digits (c ∷ s) = let more = c ∷ leading_digits s in if is_digit c then more else []

unfoldable pub digits_value : ℕ → Bytes → ℕ
digits_value acc [] = acc
digits_value acc (c ∷ s) = digits_value (acc * 10 + (c - b'0')) s

unfoldable pub negated : ℕ → ℤ
negated n = if leb n 0 then pos 0 else negsuc (n - 1)

-- A sign, if there is one, and what is behind it.
unfoldable pub split_sign : Bytes → Bool × Bytes
split_sign [] = (false, [])
split_sign (c ∷ s) =
    if c == b'-' then (true, s) else (if c == b'+' then (false, s) else (false, c ∷ s))

leading_digits_all : (s : Bytes) → All IsDigit s → leading_digits s ≡ s
unfolding leading_digits
leading_digits_all [] a = refl
leading_digits_all (c ∷ s) a = ground (arith, a.0, leading_digits_all s a.1)

pub leading_digits-to_string : (n : ℕ) → leading_digits (to_string n) ≡ to_string n
leading_digits-to_string n = leading_digits_all (to_string n) (to_string-IsDigit n)

digits_value_from : (acc : ℕ) (s : Bytes) → digits_value acc s ≡ value_from acc s
unfolding digits_value value_from
digits_value_from acc [] = refl
digits_value_from acc (c ∷ s) = digits_value_from (acc * 10 + (c - b'0')) s

pub digits_value-to_string : (n : ℕ) → digits_value 0 (to_string n) ≡ n
digits_value-to_string n = digits_value_from 0 (to_string n) ∙ value_from-to_string n
