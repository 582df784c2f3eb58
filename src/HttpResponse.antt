-- ===== src/HttpResponse.antt =====
-- The response half of load_balancer/src/HttpHelper.cpp and of load_balancer/include/HttpParser.h:
-- `parseHTTPResponse`.
pub mod Lengths
use load_tester_project.Base.{
  ℕ, ◌+◌, ◌-◌, ◌%◌, ◌^◌, Bool, true, false, ◌&&◌, List, [], ◌∷◌, Option, none, some, Bytes, codes,
  ltb, leb, ◌==◌, if◌then◌else◌, length, take, drop, map, str_eq, find, find_byte, substr,
}
use load_tester_project.Base.Decimal.{ℤ, pos, negsuc}
use load_tester_project.Base.Streams.{all_lines, skip_spaces, take_word}
use load_tester_project.Base.UnorderedMap.{assign, string_keys}
use load_tester_project.Base.Digits.{leading_digits, digits_value, negated, split_sign}
use load_tester_project.HttpParser.{skip_blanks}

pub record HttpResponse : Type 0 where
  pub version : Bytes
  pub status_code : ℤ
  pub status_text : Bytes
  pub headers : List (Bytes × Bytes)
  pub body : Bytes
  pub raw_response : Bytes

-- `HttpResponseParseResult`: the status with the fields that go with it.
pub data HttpResponseParseResult : Type 0 where
  complete : HttpResponse → ℕ → HttpResponseParseResult
  incomplete : HttpResponseParseResult
  error : Bytes → HttpResponseParseResult

-- `if (!line.empty() && line.back() == '\r') line.pop_back();`
unfoldable pub chomp : Bytes → Bytes
chomp [] = []
chomp (c ∷ []) = if c == b'\r' then [] else c ∷ []
chomp (c ∷ d ∷ s) = c ∷ chomp (d ∷ s)

-- A number that `>>` has read into an `int`, with what is left of the stream; nothing is left when
-- the number is out of range, since the stream has failed.
unfoldable pub int_read : Bool → ℕ → Bytes → ℤ × Bytes
unfolding negated
int_read true n rest = if leb n (2 ^ 31) then (negated n, rest) else (negsuc (2 ^ 31 - 1), [])
int_read false n rest = if ltb n (2 ^ 31) then (pos n, rest) else (pos (2 ^ 31 - 1), [])

-- `statusLine >> statusCode`
unfoldable pub read_int : Bytes → ℤ × Bytes
unfolding skip_spaces split_sign leading_digits digits_value int_read
read_int s =
    let (minus, s') = split_sign (skip_spaces s) in
    elim (leading_digits s') [
      | [] ↦ (pos 0, [])
      | (c ∷ ds) ↦ int_read minus (digits_value 0 (c ∷ ds)) (drop (length (c ∷ ds)) s')
    ]

-- `statusText.erase(0, 1)` if it begins with a space.
unfoldable pub strip_space : Bytes → Bytes
strip_space [] = []
strip_space (c ∷ s) = if c == b' ' then s else c ∷ s

-- The status line of a response.
unfoldable pub read_status_line : Bytes → HttpResponse
unfolding skip_spaces take_word read_int strip_space
read_status_line line =
    let s = skip_spaces line in
    let version = take_word s in
    let (code, text) = read_int (drop (length version) s) in
    record {
      version = version;
      status_code = code;
      status_text = strip_space text;
      headers = [];
      body = [];
      raw_response = [];
    }

-- `::tolower` in the C locale.
unfoldable pub to_lower : ℕ → ℕ
to_lower c = if leb b'A' c && leb c b'Z' then c + 32 else c

-- `std::stoul`; `none` is an exception. A minus sign negates modulo 2 ^ 64.
unfoldable pub stoul : Bytes → Option ℕ
unfolding skip_spaces split_sign leading_digits digits_value
stoul s =
    let (minus, s') = split_sign (skip_spaces s) in
    elim (leading_digits s') [
      | [] ↦ none
      | (c ∷ ds) ↦
          let n = digits_value 0 (c ∷ ds) in
          if ltb n (2 ^ 64) then some (if minus then (2 ^ 64 - n) % 2 ^ 64 else n) else none
    ]

-- `contentLength`, once it is found. A number that does not parse sets it to 0, which is read only
-- if an earlier header has set `contentLengthFound`.
unfoldable pub length_header : Option ℕ → Option ℕ → Option ℕ
length_header (some n) found = some n
length_header none none = none
length_header none (some old) = some 0

-- A header line.
unfoldable pub read_header :
    Bytes → Option ℕ → List (Bytes × Bytes) → Option ℕ × List (Bytes × Bytes)
unfolding skip_blanks to_lower stoul length_header
read_header line found headers = elim (find_byte b':' line) [
  | none ↦ (found, headers)
  | some colon ↦
      let name = take colon line in
      let value = skip_blanks (drop (colon + 1) line) in
      (
        (if str_eq (map to_lower name) (codes "content-length")
            then length_header (stoul value) found
            else found),
        assign name value headers,
      )
]

-- The loop over the header lines.
unfoldable pub read_headers :
    List Bytes → Option ℕ → List (Bytes × Bytes) → Option ℕ × List (Bytes × Bytes)
unfolding chomp read_header
read_headers [] found headers = (found, headers)
read_headers (line ∷ lines) found headers = elim (chomp line) [
  | [] ↦ (found, headers)
  | (c ∷ l) ↦
      let (found', headers') = read_header (c ∷ l) found headers in
      read_headers lines found' headers'
]

-- The header section: the response without its body, and the length that it declares.
unfoldable pub read_section : List Bytes → HttpResponse × Option ℕ
unfolding read_status_line chomp read_headers
read_section [] = (read_status_line [], none)
read_section (line ∷ lines) =
    let (found, headers) = read_headers lines none [] in
    (record (read_status_line (chomp line)) { headers = headers }, found)

-- `contentLength` behind the loop.
unfoldable pub body_length : Bytes → ℕ → Option ℕ → ℕ
body_length buffer start (some n) = n
body_length buffer start none = length buffer - start

-- The part of `parseHTTPResponse` behind the headers; sums of `size_t` wrap.
unfoldable pub with_content : Bytes → ℕ → HttpResponse × Option ℕ → HttpResponseParseResult
unfolding body_length
with_content buffer start section =
    let n = body_length buffer start section.1 in
    let total = (start + n) % 2 ^ 64 in
    if ltb (length buffer) total
    then incomplete
    else complete
        (record section.0 { body = substr start n buffer; raw_response = take total buffer }) total

-- `parseHTTPResponse`
unfoldable pub parse_http_response : Bytes → HttpResponseParseResult
unfolding read_section with_content
parse_http_response buffer = elim (find (codes "\r\n\r\n") buffer) [
  | none ↦ incomplete
  | some header_end ↦
      with_content buffer (header_end + 4) (read_section (all_lines (take header_end buffer)))
]
