-- ===== src/HttpParser/Numbers.antt =====
-- The range of the numbers that the parser reads.
use load_tester_project.Base.{
  ℕ, ◌+◌, ◌<◌, ◌^◌, [], ◌∷◌, some, Bytes, ◌≡◌, inl, inr, arith, ◌==◌, Bool-cases, Option-cases,
  codes, find, drop,
}
use load_tester_project.Base.Decimal.{ℤ, pos, negsuc}
use load_tester_project.HttpParser.{
  number_below, from_chars, leading_digits, length_at, get_content_length, skip_blanks,
}

number_below-lt : (limit : ℕ) (s : Bytes) (n : ℕ) → number_below limit s ≡ some n → n < limit
unfolding number_below
number_below-lt limit [] n h = cc
number_below-lt limit (c ∷ s) n h = ground arith

-- A length that is not negative fits in a `long long`.
abbrev Fits : ℤ → Type 0
Fits (pos n) = n < 2 ^ 63
Fits (negsuc n) = Unit

from_chars-Fits : (s : Bytes) (z : ℤ) → from_chars s ≡ some z → Fits z
unfolding from_chars
from_chars-Fits s (negsuc n) h = tt
from_chars-Fits [] (pos n) h = cc
from_chars-Fits (c ∷ s) (pos n) h = elim (Bool-cases (c == b'-')) [
  | inl sign ↦ elim (Option-cases (number_below (2 ^ 63 + 1) (leading_digits s))) [
    | inl bad ↦ absurd (ground (arith, sign, bad, h))
    | inr (m, good) ↦ ground (arith, sign, good, h)
  ]
  | inr digit ↦ elim (Option-cases (number_below (2 ^ 63) (leading_digits (c ∷ s)))) [
    | inl bad ↦ absurd (ground (arith, digit, bad, h))
    | inr (m, good) ↦
        ground (arith, digit, good, h, number_below-lt (2 ^ 63) (leading_digits (c ∷ s)) m good)
  ]
]

length_at-Fits : (idx : ℕ) (s : Bytes) → Fits (length_at idx s)
unfolding length_at
length_at-Fits idx s = elim (Option-cases (from_chars (skip_blanks (drop (idx + 15) s)))) [
  | inl bad ↦ rw (bad, length_at) (omega arith)
  | inr (z, good) ↦ rw (good, length_at) (from_chars-Fits (skip_blanks (drop (idx + 15) s)) z good)
]

get_content_length-Fits : (s : Bytes) → Fits (get_content_length s)
unfolding get_content_length
get_content_length-Fits s = elim (Option-cases (find (codes "Content-Length:") s)) [
  | inr (i, found) ↦ rw (found, get_content_length) (length_at-Fits i s)
  | inl missing ↦ elim (Option-cases (find (codes "content-length:") s)) [
    | inr (i, found) ↦ rw (missing, get_content_length, found) (length_at-Fits i s)
    | inl absent ↦ rw (missing, get_content_length, absent) (omega arith)
  ]
]

pub get_content_length-lt : (s : Bytes) (n : ℕ) → get_content_length s ≡ pos n → n < 2 ^ 63
get_content_length-lt s n h = rw h at (get_content_length-Fits s)
