-- ===== src/HttpParser/Framing.antt =====
-- Which bytes of the buffer a parsed request takes, and that a written request is parsed back.
use load_tester_project.Base.{
  ℕ, suc, ◌+◌, ◌-◌, ◌≤◌, ◌<◌, ◌^◌, ◌%◌, false, [], ◌∷◌, ◌++◌, some, Bytes, ◌≡◌, ◌≢◌, inl, inr, refl,
  sym, ap, ◌∙◌, arith, ltb, Bool-cases, Option-cases, All, codes, find, find_byte, find_byte_from,
  drop, take, substr, length, length-append, length-take, append_assoc, length-drop,
  take-append-length, drop-append-length,
}
use load_tester_project.Base.Search.{find_bound, find-append}
use load_tester_project.Base.Decimal.{ℤ, pos, negsuc}
use load_tester_project.HttpParser.{
  HttpRequest, complete, parse_http_request, with_headers, with_body, split_line,
  get_content_length,
}
use load_tester_project.HttpParser.Numbers.{get_content_length-lt}

-- The request `r` is the first `consumed` bytes of the buffer: the headers up to the first empty
-- line, then as many bytes of body as the headers declare.
pub record IsFramed (buffer : Bytes) (r : HttpRequest) (consumed : ℕ) : Type 0 where
  pub header_end : ℕ
  pub ends_headers : find (codes "\r\n\r\n") buffer ≡ some header_end
  pub declared : get_content_length (take header_end buffer) ≡ pos (length r.body)
  pub consumed_eq : consumed ≡ header_end + 4 + length r.body
  pub fits : consumed ≤ length buffer
  pub raw : r.raw_request ≡ take consumed buffer
  pub body_at : r.body ≡ substr (header_end + 4) (length r.body) buffer

with_body-frame :
    (buffer : Bytes) (hl : ℕ) (line : Bytes × Bytes × Bytes) (z : ℤ) (r : HttpRequest) (n : ℕ)
    → length buffer < 2 ^ 63
    → hl ≤ length buffer
    → ((m : ℕ) → z ≡ pos m → m < 2 ^ 63)
    → with_body buffer hl line z ≡ complete r n
    → (z ≡ pos (length r.body))
      × (n ≡ hl + length r.body)
      × (n ≤ length buffer)
      × (r.raw_request ≡ take n buffer)
      × (r.body ≡ substr hl (length r.body) buffer)
unfolding with_body
with_body-frame buffer hl line (negsuc m) r n len h fits e = absurd (cc)
with_body-frame buffer hl line (pos m) r n len h fits e =
    elim (Bool-cases (ltb (length buffer) ((hl + m) % 2 ^ 64))) [
      | inl short ↦ absurd (ground (arith, short, e))
      | inr whole ↦
          let m_lt = fits m refl in
          let total : (hl + m) % 2 ^ 64 ≡ hl + m = omega arith in
          let room : hl + m ≤ length buffer = ground (arith, whole, total) in
          let body : substr hl m buffer ≡ r.body = ground (arith, whole, e) in
          let size : length r.body ≡ m =
            omega (arith, ap length body, length-take m (drop hl buffer), length-drop hl buffer) in
          let n_eq : (hl + m) % 2 ^ 64 ≡ n = ground (arith, whole, e) in
          let raw : take ((hl + m) % 2 ^ 64) buffer ≡ r.raw_request = ground (arith, whole, e) in
          (
            ap pos (sym size),
            omega arith,
            omega arith,
            sym raw ∙ ap (λ k. take k buffer) n_eq,
            sym body ∙ ap (λ k. substr hl k buffer) (sym size),
          )
    ]

with_headers-frame :
    (buffer : Bytes) (hl : ℕ) (section : Bytes) (r : HttpRequest) (n : ℕ)
    → length buffer < 2 ^ 63
    → hl ≤ length buffer
    → with_headers buffer hl section ≡ complete r n
    → (get_content_length section ≡ pos (length r.body))
      × (n ≡ hl + length r.body)
      × (n ≤ length buffer)
      × (r.raw_request ≡ take n buffer)
      × (r.body ≡ substr hl (length r.body) buffer)
unfolding with_headers
with_headers-frame buffer hl section r n len h e =
    elim (Option-cases (find (codes "\r\n") section)) [
      | inl missing ↦ absurd (ground (arith, missing, e))
      | inr (i, found) ↦ elim (Option-cases (split_line (take i section))) [
        | inl bad ↦ absurd (ground (arith, found, bad, e))
        | inr (line, good) ↦
            with_body-frame buffer hl line (get_content_length section) r n len h
              (λ m q. get_content_length-lt section m q) (ground (arith, found, good, e))
      ]
    ]

-- A complete parse of less than 2 ^ 63 bytes consumes exactly one request: the head up to the
-- first empty line and as many bytes of body as the headers declare, all of them in the buffer.
pub parse_http_request-IsFramed :
    (buffer : Bytes) (r : HttpRequest) (n : ℕ)
    → length buffer < 2 ^ 63
    → parse_http_request buffer ≡ complete r n
    → IsFramed buffer r n
unfolding parse_http_request
parse_http_request-IsFramed buffer r n len e =
    elim (Option-cases (find (codes "\r\n\r\n") buffer)) [
      | inl missing ↦ absurd (ground (arith, missing, e))
      | inr (i, found) ↦
          let inside = find_bound (codes "\r\n\r\n") buffer i found in
          let before : with_headers buffer (i + 4) (take i buffer) ≡ complete r n =
            ground (arith, found, e) in
          let f =
            with_headers-frame buffer (i + 4) (take i buffer) r n len (omega (arith, inside))
              before in
          record {
            header_end = i;
            ends_headers = found;
            declared = f.0;
            consumed_eq = f.1;
            fits = f.2;
            raw = f.3;
            body_at = f.4;
          }
    ]

find_byte-first :
    (b : ℕ) (s rest : Bytes) → All (λ c. c ≢ b) s → find_byte b (s ++ b ∷ rest) ≡ some (length s)
unfolding find_byte
find_byte-first b [] rest h = ground arith
find_byte-first b (c ∷ s) rest h = ground (arith, find_byte-first b s rest h.1)

-- A request line with its two spaces.
abbrev pub line_text : Bytes → Bytes → Bytes → Bytes
line_text method path version = method ++ b' ' ∷ (path ++ b' ' ∷ version)

drop_past :
    (s : Bytes) (c : ℕ) (rest : Bytes) (n : ℕ) → n ≡ length s + 1 → drop n (s ++ c ∷ rest) ≡ rest
drop_past [] c rest n e = rw e
drop_past (x ∷ s) c rest n e =
    let e' : n ≡ suc (length s + 1) = omega arith in rw e' (drop_past s c rest (length s + 1) refl)

split_line-line_text :
    (method path version : Bytes)
    → All (λ c. c ≢ b' ') method
    → All (λ c. c ≢ b' ') path
    → split_line (line_text method path version) ≡ some (method, path, version)
unfolding split_line find_byte_from
split_line-line_text method path version hm hp =
    let line = line_text method path version in
    let lm = length method in
    let lp = length path in
    let first = find_byte-first b' ' method (path ++ b' ' ∷ version) hm in
    let behind = drop_past method b' ' (path ++ b' ' ∷ version) (lm + 1) refl in
    let second = find_byte-first b' ' path version hp in
    let whole : line ≡ (method ++ b' ' ∷ path) ++ b' ' ∷ version =
      sym (append_assoc method (b' ' ∷ path) _) in
    let len = length-append method (b' ' ∷ path) in
    let tail : drop (lm + 1 + lp + 1) line ≡ version =
      ap (drop (lm + 1 + lp + 1)) whole
      ∙ drop_past (method ++ b' ' ∷ path) b' ' version (lm + 1 + lp + 1) (omega (arith, len)) in
    let middle : lm + 1 + lp - lm - 1 ≡ lp = omega arith in
    ground (
      arith,
      first,
      behind,
      second,
      tail,
      middle,
      take-append-length method (b' ' ∷ (path ++ b' ' ∷ version)),
      take-append-length path (b' ' ∷ version),
    )

-- A request as a client writes it: the request line, the header lines behind it, an empty line
-- and the body.
abbrev pub head_text : Bytes → Bytes → Bytes → Bytes → Bytes
head_text method path version fields = line_text method path version ++ (codes "\r\n" ++ fields)

abbrev pub request_text : Bytes → Bytes → Bytes
request_text head body = head ++ (codes "\r\n\r\n" ++ body)

body_behind :
    (head body rest : Bytes)
    → substr (length head + 4) (length body) (request_text head body ++ rest) ≡ body
body_behind head body rest =
    let mark : Bytes = codes "\r\n\r\n" in
    let size : length head + 4 ≡ length (head ++ mark) = omega (arith, length-append head mark) in
    let regroup : request_text head body ++ rest ≡ (head ++ mark) ++ (body ++ rest) =
      append_assoc head (mark ++ body) rest ∙ sym (append_assoc head mark (body ++ rest)) in
    let behind : drop (length head + 4) (request_text head body ++ rest) ≡ body ++ rest =
      ap (drop (length head + 4)) regroup
      ∙ ap (λ n. drop n ((head ++ mark) ++ (body ++ rest))) size
      ∙ drop-append-length (head ++ mark) (body ++ rest) in
    ap (take (length body)) behind ∙ take-append-length body rest

-- A written request is parsed back, whatever follows it in a buffer of less than 2 ^ 63 bytes,
-- if method and path hold no space, the line and the head have no early line end, and the
-- headers declare the body's length.
pub parse_http_request-request_text :
    (method path version fields body rest : Bytes)
    → All (λ c. c ≢ b' ') method
    → All (λ c. c ≢ b' ') path
    → find (codes "\r\n") (head_text method path version fields)
      ≡ some (length (line_text method path version))
    → find (codes "\r\n\r\n") (request_text (head_text method path version fields) body)
      ≡ some (length (head_text method path version fields))
    → get_content_length (head_text method path version fields) ≡ pos (length body)
    → length (request_text (head_text method path version fields) body ++ rest) < 2 ^ 63
    → parse_http_request (request_text (head_text method path version fields) body ++ rest)
      ≡ complete
          (record {
            method = method;
            path = path;
            version = version;
            headers = [];
            body = body;
            raw_request = request_text (head_text method path version fields) body;
          })
          (length (request_text (head_text method path version fields) body))
unfolding parse_http_request with_headers with_body
parse_http_request-request_text method path version fields body rest hm hp line_end head_end
      declared len =
    let line = line_text method path version in
    let head = head_text method path version fields in
    let text = request_text head body in
    let found = find-append (codes "\r\n\r\n") text rest (length head) head_end in
    let cut : take (length head) (text ++ rest) ≡ head =
      ap (take (length head)) (append_assoc head _ rest) ∙ take-append-length head _ in
    let split = split_line-line_text method path version hm hp in
    let first : take (length line) head ≡ line = take-append-length line _ in
    let sizes = length-append head (codes "\r\n\r\n" ++ body) in
    let all = length-append text rest in
    let total : (length head + 4 + length body) % 2 ^ 64 ≡ length text = omega arith in
    let enough : ltb (length (text ++ rest)) (length text) ≡ false = ground arith in
    let raw : take (length text) (text ++ rest) ≡ text = take-append-length text rest in
    let body_part : substr (length head + 4) (length body) (text ++ rest) ≡ body =
      body_behind head body rest in
    ground (arith, found, cut, line_end, first, split, declared, total, enough, raw, body_part)
