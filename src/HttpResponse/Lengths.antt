-- ===== src/HttpResponse/Lengths.antt =====
-- Where a response ends, by the length that its headers declare.
use load_tester_project.Base.Decimal.{to_string}
use load_tester_project.Base.Digits.{
  leading_digits, digits_value, split_sign, leading_digits-to_string, digits_value-to_string,
}
use load_tester_project.Base.Streams.{skip_spaces}
use load_tester_project.Base.{
  true, ◌∷◌, [], ◌∙◌, ℕ, ◌+◌, ◌-◌, ◌≤◌, ◌<◌, ◌^◌, ◌%◌, false, ◌++◌, Option, none, some, Bytes, ◌≡◌,
  inl, inr, refl, arith, ltb, Bool-cases, codes, find, drop, take, substr, length, length-append,
  take-append, drop-append, length-drop,
}
use load_tester_project.Base.Search.{find_bound}
use load_tester_project.Base.Streams.{all_lines}
use load_tester_project.HttpParser.Stability.{cut_same}
use load_tester_project.HttpResponse.{
  HttpResponse, stoul, complete, parse_http_response, with_content, read_section, body_length,
}

-- The length that the header section declares.
abbrev pub declared_length : Bytes → Option ℕ
declared_length section = (read_section (all_lines section)).1

with_content-append :
    (buffer rest : Bytes) (start m : ℕ) (section : HttpResponse × Option ℕ) (r : HttpResponse)
    (n : ℕ)
    → start ≤ length buffer
    → length (buffer ++ rest) < 2 ^ 63
    → m < 2 ^ 63
    → section.1 ≡ some m
    → with_content buffer start section ≡ complete r n
    → with_content (buffer ++ rest) start section ≡ complete r n
unfolding with_content body_length
with_content-append buffer rest start m section r n h len m_lt d e =
    elim (Bool-cases (ltb (length buffer) ((start + m) % 2 ^ 64))) [
      | inl short ↦ absurd (ground (arith, d, short, e))
      | inr whole ↦
          let lens = length-append buffer rest in
          let total : (start + m) % 2 ^ 64 ≡ start + m = omega arith in
          let room : start + m ≤ length buffer = ground (arith, whole, total) in
          let more : ltb (length (buffer ++ rest)) ((start + m) % 2 ^ 64) ≡ false = ground arith in
          let raw = take-append ((start + m) % 2 ^ 64) buffer rest (omega arith) in
          let tail = drop-append start buffer rest h in
          let body =
            take-append m (drop start buffer) rest (omega (arith, length-drop start buffer)) in
          ground (arith, d, more, raw, tail, body, whole, e)
    ]

-- A complete response that declares its length, of less than 2 ^ 63 bytes, is parsed the same
-- when more bytes follow it, in a buffer of less than 2 ^ 63 bytes.
pub parse_http_response-append :
    (buffer rest : Bytes) (i m : ℕ) (r : HttpResponse) (n : ℕ)
    → find (codes "\r\n\r\n") buffer ≡ some i
    → declared_length (take i buffer) ≡ some m
    → m < 2 ^ 63
    → length (buffer ++ rest) < 2 ^ 63
    → parse_http_response buffer ≡ complete r n
    → parse_http_response (buffer ++ rest) ≡ complete r n
unfolding parse_http_response
parse_http_response-append buffer rest i m r n found d m_lt len e =
    let (again, cut, room) = cut_same buffer rest i found in
    let section = read_section (all_lines (take i buffer)) in
    let before : with_content buffer (i + 4) section ≡ complete r n = ground (arith, found, e) in
    let now = with_content-append buffer rest (i + 4) m section r n room len m_lt d before in
    ground (arith, again, cut, now)

-- A response that declares no length is complete as soon as its headers are there: it is the
-- whole of a buffer of less than 2 ^ 64 bytes, however much of the body has arrived.
pub parse_http_response_undeclared :
    (buffer : Bytes) (i : ℕ)
    → find (codes "\r\n\r\n") buffer ≡ some i
    → declared_length (take i buffer) ≡ none
    → length buffer < 2 ^ 64
    → (r : HttpResponse) × (parse_http_response buffer ≡ complete r (length buffer))
      × (r.raw_response ≡ take (length buffer) buffer)
      × (r.body ≡ substr (i + 4) (length buffer - (i + 4)) buffer)
unfolding parse_http_response with_content body_length
parse_http_response_undeclared buffer i found d len =
    let inside = find_bound (codes "\r\n\r\n") buffer i found in
    let total : (i + 4 + (length buffer - (i + 4))) % 2 ^ 64 ≡ length buffer =
      omega (arith, inside) in
    let fits : ltb (length buffer) (length buffer) ≡ false = ground arith in
    (
      record (read_section (all_lines (take i buffer))).0 {
        body = substr (i + 4) (length buffer - (i + 4)) buffer;
        raw_response = take (length buffer) buffer;
      },
      ground (arith, found, d, total, fits),
      refl,
      refl,
    )

stoul-minus :
    (k : ℕ) (s : Bytes)
    → leading_digits s ≡ s
    → digits_value 0 s ≡ k
    → 0 < k
    → k < 2 ^ 64
    → stoul (b'-' ∷ s) ≡ some (2 ^ 64 - k)
unfolding stoul skip_spaces split_sign digits_value
stoul-minus k [] digits value k_gt k_lt = absurd (omega (arith, value, k_gt))
stoul-minus k (c ∷ s) digits value k_gt k_lt =
    let small : ltb k (2 ^ 64) ≡ true = ground (arith, k_lt) in
    let same : (2 ^ 64 - k) % 2 ^ 64 ≡ 2 ^ 64 - k = omega arith in
    ground (arith, digits, value, small, same)

-- If the headers declare the length that `stoul` reads from the text -k, which is 2 ^ 64 - k, a
-- response is complete and ends k bytes before the end of its own headers, for a positive k of
-- at most the bytes up to there, in a buffer of less than 2 ^ 64.
pub parse_http_response_wraps :
    (buffer : Bytes) (i k : ℕ)
    → find (codes "\r\n\r\n") buffer ≡ some i
    → declared_length (take i buffer) ≡ stoul (b'-' ∷ to_string k)
    → 0 < k
    → k ≤ i + 4
    → length buffer < 2 ^ 64
    → (r : HttpResponse) × (parse_http_response buffer ≡ complete r (i + 4 - k))
      × (r.raw_response ≡ take (i + 4 - k) buffer)
unfolding parse_http_response with_content body_length
parse_http_response_wraps buffer i k found text k_gt k_le len =
    let inside = find_bound (codes "\r\n\r\n") buffer i found in
    let read =
      stoul-minus k (to_string k) (leading_digits-to_string k) (digits_value-to_string k) k_gt
        (omega (arith, inside)) in
    let d = text ∙ read in
    let total : (i + 4 + (2 ^ 64 - k)) % 2 ^ 64 ≡ i + 4 - k = omega (arith, inside) in
    let fits : ltb (length buffer) (i + 4 - k) ≡ false = ground (arith, inside) in
    (
      record (read_section (all_lines (take i buffer))).0 {
        body = substr (i + 4) (2 ^ 64 - k) buffer;
        raw_response = take (i + 4 - k) buffer;
      },
      ground (arith, found, d, total, fits),
      refl,
    )
