-- ===== src/KvServer/Port.antt =====
-- The port of a server, which `main` of kvserver.cpp reads from its arguments, and the name of its
-- database.
use load_tester_project.Base.{
  ℕ, ◌^◌, ◌<◌, false, List, [], ◌∷◌, ◌++◌, Option, none, some, Bytes, codes, ◌≡◌, refl, arith, All,
  ltb, leb, if◌then◌else◌, List-cases, inl, inr,
}
use load_tester_project.Base.Decimal.{
  ℤ, pos, int_to_string, int_to_string-injective, to_string, to_string-IsDigit, IsDigit,
}
use load_tester_project.Base.Digits.{
  leading_digits, digits_value, negated, split_sign, leading_digits-to_string,
  digits_value-to_string,
}
use load_tester_project.Base.Streams.{skip_spaces, is_space}

-- `std::stoi`; `none` is an exception.
unfoldable pub stoi : Bytes → Option ℤ
unfolding skip_spaces split_sign leading_digits digits_value negated
stoi s =
    let (minus, s') = split_sign (skip_spaces s) in
    elim (leading_digits s') [
      | [] ↦ none
      | (c ∷ ds) ↦
          let n = digits_value 0 (c ∷ ds) in
          if minus
          then (if leb n (2 ^ 31) then some (negated n) else none)
          else (if ltb n (2 ^ 31) then some (pos n) else none)
    ]

-- `g_server_port` after the start of `main`, for the arguments behind the name of the program.
unfoldable pub server_port : List Bytes → ℤ
unfolding stoi
server_port [] = pos 9001
server_port (argument ∷ arguments) = elim (stoi argument) [ none ↦ pos 9001 | some port ↦ port ]

-- `db_name`
unfoldable pub db_name : ℤ → Bytes
db_name port = codes "kvstore_" ++ int_to_string port

-- A number begins with a digit, which is no space and no sign.
plain_number : (s : Bytes) → All IsDigit s → (skip_spaces s ≡ s) × (split_sign s ≡ (false, s))
unfolding skip_spaces split_sign is_space
plain_number [] a = (refl, refl)
plain_number (c ∷ s) a = (ground (arith, a.0), ground (arith, a.0))

stoi-to_string : (n : ℕ) → n < 2 ^ 31 → stoi (to_string n) ≡ some (pos n)
unfolding stoi
stoi-to_string n h =
    let digits = to_string-IsDigit n in
    let (unspaced, unsigned) = plain_number (to_string n) digits in
    elim (List-cases (to_string n)) [
      | inl nothing ↦
          let zero_is : n ≡ 0 = ground (arith, digits_value-to_string n, nothing) in
          absurd (unfold to_string in ground (arith, nothing, zero_is))
      | inr (c, ds, e) ↦
          ground
            (arith, unspaced, unsigned, leading_digits-to_string n, e, digits_value-to_string n, h)
    ]

-- A server that is started with a printed port listens on it.
server_port-to_string :
    (n : ℕ) (others : List Bytes) → n < 2 ^ 31 → server_port (to_string n ∷ others) ≡ pos n
unfolding server_port
server_port-to_string n others h = rw (stoi-to_string n h, server_port) refl

append_same : (p s t : Bytes) → p ++ s ≡ p ++ t → s ≡ t
append_same [] s t e = e
append_same (c ∷ p) s t e = append_same p s t (ground (arith, e))

-- Servers on different ports have different databases.
db_name-injective : (a b : ℤ) → db_name a ≡ db_name b → a ≡ b
unfolding db_name
db_name-injective a b e = int_to_string-injective a b (append_same (codes "kvstore_") _ _ e)
