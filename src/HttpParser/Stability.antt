-- ===== src/HttpParser/Stability.antt =====
-- More bytes behind a parsed request change nothing.
use load_tester_project.Base.{
  ℕ, ◌+◌, ◌≤◌, ◌<◌, ◌^◌, ◌%◌, false, ◌++◌, some, Bytes, ◌≡◌, inl, inr, refl, arith, ltb, Bool-cases,
  Option-cases, codes, find, drop, take, length, length-append, take-append, drop-append,
  length-drop,
}
use load_tester_project.Base.Search.{find_bound, find-append}
use load_tester_project.Base.Decimal.{ℤ, pos, negsuc}
use load_tester_project.HttpParser.{
  HttpRequest, complete, error, parse_http_request, with_headers, with_body, split_line,
  get_content_length,
}
use load_tester_project.HttpParser.Numbers.{get_content_length-lt}

with_body-append :
    (buffer rest : Bytes) (hl : ℕ) (line : Bytes × Bytes × Bytes) (z : ℤ) (r : HttpRequest) (n : ℕ)
    → hl ≤ length buffer
    → length (buffer ++ rest) < 2 ^ 63
    → ((m : ℕ) → z ≡ pos m → m < 2 ^ 63)
    → with_body buffer hl line z ≡ complete r n
    → with_body (buffer ++ rest) hl line z ≡ complete r n
unfolding with_body
with_body-append buffer rest hl line (negsuc m) r n h len fits e = cc
with_body-append buffer rest hl line (pos m) r n h len fits e =
    elim (Bool-cases (ltb (length buffer) ((hl + m) % 2 ^ 64))) [
      | inl short ↦ absurd (ground (arith, short, e))
      | inr whole ↦
          let m_lt = fits m refl in
          let lens = length-append buffer rest in
          let total : (hl + m) % 2 ^ 64 ≡ hl + m = omega arith in
          let room : hl + m ≤ length buffer = ground (arith, whole, total) in
          let more : ltb (length (buffer ++ rest)) ((hl + m) % 2 ^ 64) ≡ false = ground arith in
          let raw = take-append ((hl + m) % 2 ^ 64) buffer rest (omega arith) in
          let tail = drop-append hl buffer rest h in
          let body = take-append m (drop hl buffer) rest (omega (arith, length-drop hl buffer)) in
          ground (arith, more, raw, tail, body, whole, e)
    ]

with_headers-append :
    (buffer rest : Bytes) (hl : ℕ) (section : Bytes) (r : HttpRequest) (n : ℕ)
    → hl ≤ length buffer
    → length (buffer ++ rest) < 2 ^ 63
    → with_headers buffer hl section ≡ complete r n
    → with_headers (buffer ++ rest) hl section ≡ complete r n
unfolding with_headers
with_headers-append buffer rest hl section r n h len e =
    elim (Option-cases (find (codes "\r\n") section)) [
      | inl missing ↦ absurd (ground (arith, missing, e))
      | inr (i, found) ↦ elim (Option-cases (split_line (take i section))) [
        | inl bad ↦ absurd (ground (arith, found, bad, e))
        | inr (line, good) ↦
            let z = get_content_length section in
            let before : with_body buffer hl line z ≡ complete r n =
              ground (arith, found, good, e) in
            let now =
              with_body-append buffer rest hl line z r n h len
                (λ m q. get_content_length-lt section m q) before in
            ground (arith, found, good, now)
      ]
    ]

with_body-error :
    (buffer rest : Bytes) (hl : ℕ) (line : Bytes × Bytes × Bytes) (z : ℤ) (why : Bytes)
    → with_body buffer hl line z ≡ error why
    → with_body (buffer ++ rest) hl line z ≡ error why
unfolding with_body
with_body-error buffer rest hl line (negsuc m) why e = e
with_body-error buffer rest hl line (pos m) why e = absurd (ground arith)

with_headers-error :
    (buffer rest : Bytes) (hl : ℕ) (section why : Bytes)
    → with_headers buffer hl section ≡ error why
    → with_headers (buffer ++ rest) hl section ≡ error why
unfolding with_headers
with_headers-error buffer rest hl section why e =
    elim (Option-cases (find (codes "\r\n") section)) [
      | inl missing ↦ ground (arith, missing, e)
      | inr (i, found) ↦ elim (Option-cases (split_line (take i section))) [
        | inl bad ↦ ground (arith, found, bad, e)
        | inr (line, good) ↦
            let z = get_content_length section in
            let before : with_body buffer hl line z ≡ error why = ground (arith, found, good, e) in
            ground (arith, found, good, with_body-error buffer rest hl line z why before)
      ]
    ]

-- The end of the headers is where it was.
pub cut_same :
    (buffer rest : Bytes) (i : ℕ)
    → find (codes "\r\n\r\n") buffer ≡ some i
    → (find (codes "\r\n\r\n") (buffer ++ rest) ≡ some i)
      × (take i (buffer ++ rest) ≡ take i buffer)
      × (i + 4 ≤ length buffer)
cut_same buffer rest i found =
    let inside = find_bound (codes "\r\n\r\n") buffer i found in
    (
      find-append (codes "\r\n\r\n") buffer rest i found,
      take-append i buffer rest (omega arith),
      omega (arith, inside),
    )

-- A complete request is parsed the same when more bytes follow it, in a buffer of less than 2 ^
-- 63 bytes.
pub parse_http_request-append :
    (buffer rest : Bytes) (r : HttpRequest) (n : ℕ)
    → length (buffer ++ rest) < 2 ^ 63
    → parse_http_request buffer ≡ complete r n
    → parse_http_request (buffer ++ rest) ≡ complete r n
unfolding parse_http_request
parse_http_request-append buffer rest r n len e =
    elim (Option-cases (find (codes "\r\n\r\n") buffer)) [
      | inl missing ↦ absurd (ground (arith, missing, e))
      | inr (i, found) ↦
          let (again, cut, room) = cut_same buffer rest i found in
          let before : with_headers buffer (i + 4) (take i buffer) ≡ complete r n =
            ground (arith, found, e) in
          let now = with_headers-append buffer rest (i + 4) (take i buffer) r n room len before in
          ground (arith, again, cut, now)
    ]

-- A malformed request stays malformed, with the same message, when more bytes follow it.
pub parse_http_request-error_append :
    (buffer rest why : Bytes)
    → parse_http_request buffer ≡ error why
    → parse_http_request (buffer ++ rest) ≡ error why
unfolding parse_http_request
parse_http_request-error_append buffer rest why e =
    elim (Option-cases (find (codes "\r\n\r\n") buffer)) [
      | inl missing ↦ absurd (ground (arith, missing, e))
      | inr (i, found) ↦
          let (again, cut, room) = cut_same buffer rest i found in
          let before : with_headers buffer (i + 4) (take i buffer) ≡ error why =
            ground (arith, found, e) in
          let now = with_headers-error buffer rest (i + 4) (take i buffer) why before in
          ground (arith, again, cut, now)
    ]
