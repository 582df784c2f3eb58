-- ===== src/HttpParser.antt =====
-- load_balancer/include/HttpParser.h and the request half of load_balancer/src/HttpHelper.cpp:
-- requests, the key of a request, and the incremental request parser.
pub mod Numbers
pub mod Stability
pub mod Framing
use load_tester_project.Base.{
  ℕ, suc, ◌+◌, ◌-◌, ◌*◌, ◌%◌, ◌^◌, Bool, true, false, not, ◌&&◌, ◌||◌, List, [], ◌∷◌, ◌++◌, Option,
  none, some, Bytes, codes, ltb, leb, ◌==◌, if◌then◌else◌, length, take, drop, str_eq, find,
  find_byte, find_byte_from, substr,
}
use load_tester_project.Base.Digits.{is_digit, leading_digits, digits_value, negated}
use load_tester_project.Base.Decimal.{ℤ, pos, negsuc}

pub record HttpRequest : Type 0 where
  pub method : Bytes
  pub path : Bytes
  pub version : Bytes
  pub headers : List (Bytes × Bytes)
  pub body : Bytes
  pub raw_request : Bytes

-- `HttpParseResult`: the status with the fields that go with it.
pub data HttpParseResult : Type 0 where
  complete : HttpRequest → ℕ → HttpParseResult
  incomplete : HttpParseResult
  error : Bytes → HttpParseResult

-- `s.find_last_of(c)`
unfoldable pub find_last : ℕ → Bytes → Option ℕ
find_last b [] = none
find_last b (c ∷ s) = elim (find_last b s) [
  | some i ↦ some (suc i)
  | none ↦ if c == b then some 0 else none
]

-- The second half of `getKey`.
unfoldable pub last_segment : Bytes → Bytes
unfolding find_last
last_segment path = elim (find_last b'/' path) [
  | some i ↦ if ltb (i + 1) (length path) then drop (i + 1) path else path
  | none ↦ path
]

-- `HttpRequest::getKey`
unfoldable pub get_key : HttpRequest → Bytes
unfolding last_segment
get_key r =
    if str_eq r.path (codes "/kvstore/create") && not (leb (length r.body) 0)
    then (elim (find_byte b' ' r.body) [ some i ↦ take i r.body | none ↦ r.body ])
    else last_segment r.path

-- The digits as a number that fits below the limit.
unfoldable pub number_below : ℕ → Bytes → Option ℕ
unfolding digits_value
number_below limit [] = none
number_below limit (c ∷ s) = let n = digits_value 0 (c ∷ s) in if ltb n limit then some n else none

-- `std::from_chars` into a `long long`; `none` is any error.
unfoldable pub from_chars : Bytes → Option ℤ
unfolding number_below leading_digits negated
from_chars [] = none
from_chars (c ∷ s) =
    if c == b'-'
    then (elim (number_below (2 ^ 63 + 1) (leading_digits s)) [
      | some n ↦ some (negated n)
      | none ↦ none
    ])
    else (elim (number_below (2 ^ 63) (leading_digits (c ∷ s))) [
      | some n ↦ some (pos n)
      | none ↦ none
    ])

unfoldable pub skip_blanks : Bytes → Bytes
skip_blanks [] = []
skip_blanks (c ∷ s) = let rest = skip_blanks s in if c == b' ' || c == b'\t' then rest else c ∷ s

-- What stands at `idx`, behind the 15 bytes of the header's name.
unfoldable pub length_at : ℕ → Bytes → ℤ
unfolding from_chars skip_blanks
length_at idx headers = elim (from_chars (skip_blanks (drop (idx + 15) headers))) [
  | some n ↦ n
  | none ↦ pos 0
]

-- `getContentLength`
unfoldable pub get_content_length : Bytes → ℤ
unfolding length_at
get_content_length headers = elim (find (codes "Content-Length:") headers) [
  | some idx ↦ length_at idx headers
  | none ↦ elim (find (codes "content-length:") headers) [
    | some idx ↦ length_at idx headers
    | none ↦ pos 0
  ]
]

-- The request line cut at its first two spaces. `space1 + 1` wraps to 0 if there is no space.
unfoldable pub split_line : Bytes → Option (Bytes × Bytes × Bytes)
split_line line = elim (find_byte b' ' line) [
  | none ↦ none
  | some space1 ↦ elim (find_byte_from (space1 + 1) b' ' line) [
    | none ↦ none
    | some space2 ↦
        some
          (take space1 line, substr (space1 + 1) (space2 - space1 - 1) line, drop (space2 + 1) line)
  ]
]

-- `makeComplete`
abbrev make_complete : HttpRequest → ℕ → HttpParseResult
make_complete request consumed = complete request consumed

-- `makeIncomplete`
abbrev make_incomplete : HttpParseResult
make_incomplete = incomplete

-- `makeError`
abbrev make_error : Bytes → HttpParseResult
make_error why = error why

-- The part of `parseHTTPRequest` behind the request line; sums of `size_t` wrap.
unfoldable pub with_body : Bytes → ℕ → Bytes × Bytes × Bytes → ℤ → HttpParseResult
with_body buffer header_length line (negsuc n) = make_error (codes "Invalid Content-Length header")
with_body buffer header_length line (pos n) =
    let total = (header_length + n) % 2 ^ 64 in
    if ltb (length buffer) total
    then make_incomplete
    else make_complete
        (record {
          method = line.0;
          path = line.1;
          version = line.2;
          headers = [];
          body = substr header_length n buffer;
          raw_request = take total buffer;
        })
        total

-- The part of `parseHTTPRequest` on the header section.
unfoldable pub with_headers : Bytes → ℕ → Bytes → HttpParseResult
unfolding split_line with_body
with_headers buffer header_length section = elim (find (codes "\r\n") section) [
  | none ↦ make_error (codes "Malformed HTTP Request Line")
  | some line_end ↦ elim (split_line (take line_end section)) [
    | none ↦ make_error (codes "Invalid request lineStructure")
    | some line ↦ with_body buffer header_length line (get_content_length section)
  ]
]

-- `parseHTTPRequest`
unfoldable pub parse_http_request : Bytes → HttpParseResult
unfolding with_headers
parse_http_request buffer = elim (find (codes "\r\n\r\n") buffer) [
  | none ↦ make_incomplete
  | some header_end ↦ with_headers buffer (header_end + 4) (take header_end buffer)
]
