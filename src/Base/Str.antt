-- ===== src/Base/Str.antt =====
-- `std::string` as the list of its bytes: comparison, `find`, `substr`.
use Prim.Native.Char.{code}
use Prim.Native.Nat.{ℕ, suc, ◌+◌}
use Prim.Native.String.{String}
use mathlib.Core.Path.{◌≡◌, refl}
use mathlib.Core.Logic.{◌↔◌}
use mathlib.Core.Bool.{Bool, true, false, ◌&&◌, ◌||◌}
use mathlib.Core.List.{List, [], ◌∷◌}
use mathlib.Core.Option
use mathlib.Core.Option.{Option, none, some}
use native.Mathlib.Omega.{arith}
use load_tester_project.Base.Tests.{◌==◌, ltb, if◌then◌else◌}
use load_tester_project.Base.Lists.{take, drop}

abbrev pub Bytes : Type 0
Bytes = List ℕ

-- The bytes of an ASCII text.
abbrev pub codes : String → Bytes
codes String.[] = []
codes (String.◌∷◌ c s) = code c ∷ codes s

-- `operator==` on strings.
unfoldable pub str_eq : Bytes → Bytes → Bool
str_eq [] [] = true
str_eq (x ∷ xs) (y ∷ ys) = x == y && str_eq xs ys
str_eq _ _ = false

pub str_eq_iff : (a b : Bytes) → (str_eq a b ≡ true) ↔ (a ≡ b)
unfolding str_eq
str_eq_iff (x ∷ a) (y ∷ b) = ground (arith, str_eq_iff a b)
str_eq_iff _ _ = ground arith

pub str_eq_refl : (a : Bytes) → str_eq a a ≡ true
str_eq_refl a = (str_eq_iff a a).1 refl

pub str_eq_sym : (a b : Bytes) → str_eq a b ≡ str_eq b a
str_eq_sym a b = ground (arith, str_eq_iff a b, str_eq_iff b a)

-- `operator<` on strings.
unfoldable pub str_lt : Bytes → Bytes → Bool
str_lt xs [] = false
str_lt [] (y ∷ ys) = true
str_lt (x ∷ xs) (y ∷ ys) = ltb x y || (x == y && str_lt xs ys)

-- `s` begins with `p`.
unfoldable pub starts_with : Bytes → Bytes → Bool
starts_with [] s = true
starts_with (p ∷ ps) [] = false
starts_with (p ∷ ps) (c ∷ s) = p == c && starts_with ps s

-- `s.find(p)`; `none` is `npos`.
unfoldable pub find : Bytes → Bytes → Option ℕ
unfolding starts_with
find p [] = if starts_with p [] then some 0 else none
find p (c ∷ s) =
    let later = Option.map suc (find p s) in if starts_with p (c ∷ s) then some 0 else later

-- `s.find(c)` for one byte.
unfoldable pub find_byte : ℕ → Bytes → Option ℕ
find_byte b [] = none
find_byte b (c ∷ s) = let later = Option.map suc (find_byte b s) in if c == b then some 0 else later

-- `s.find(c, from)`.
unfoldable pub find_byte_from : ℕ → ℕ → Bytes → Option ℕ
unfolding find_byte
find_byte_from from b s = Option.map (λ i. from + i) (find_byte b (drop from s))

-- `s.substr(from, count)` for `from ≤ s.size()`; past the end the source would throw.
abbrev pub substr : ℕ → ℕ → Bytes → Bytes
substr from count s = take count (drop from s)
