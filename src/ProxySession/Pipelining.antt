-- ===== src/ProxySession/Pipelining.antt =====
-- A client may send several requests at once, and the last of them in part.
use load_tester_project.Base.{
  find, ℕ, zero, suc, ◌≤◌, ◌<◌, ◌^◌, List, [], ◌∷◌, ◌++◌, Option, none, some, Bytes, ◌≡◌, inl, inr,
  refl, arith, All, length, length-append, drop-append-length, ◌⊎◌,
}
use load_tester_project.Base.Result.{Result, ok, throw, Exception, ◌>>=◌}
use load_tester_project.HttpParser.{HttpRequest, parse_http_request, complete, incomplete}
use load_tester_project.HttpParser.Stability.{parse_http_request-append}
use load_tester_project.Sockets.{Sockets}
use load_tester_project.ProxySession.{
  Session, Next, returns, goes_on, forward_request, process_requests,
}

-- A text that is one request, to its last byte.
abbrev pub IsText : Bytes × HttpRequest → Type 0
IsText (text, request) = parse_http_request text ≡ complete request (length text)

-- The texts one after another, and then `rest`.
abbrev pub sent_at_once : List (Bytes × HttpRequest) → Bytes → Bytes
sent_at_once [] rest = rest
sent_at_once ((text, request) ∷ parts) rest = text ++ sent_at_once parts rest

parse_empty : (request : HttpRequest) (n : ℕ) → parse_http_request [] ≡ complete request n → ⊥
unfolding parse_http_request find
parse_empty request n e = cc e

Result-cases :
    {A : Type 0} (m : Result A) → ((a : A) × (m ≡ ok a)) ⊎ ((e : Exception) × (m ≡ throw e))
Result-cases (ok a) = inl (a, refl)
Result-cases (throw e) = inr (e, refl)

module _ (o : Sockets) (hasher : Bytes → ℕ) (client : ℕ) where
  -- The requests are forwarded in order, until one of them ends the session.
  unfoldable pub forward_all :
      List (Bytes × HttpRequest) → Session o hasher → Result (Next × Session o hasher)
  forward_all [] s = ok (goes_on, s)
  forward_all ((text, request) ∷ parts) s = do
    r ← forward_request o hasher client request s
    elim r.0 [ returns ↦ ok (returns, r.1) | goes_on ↦ forward_all parts r.1 ]

  -- What is left in the buffer.
  abbrev pub leaving : Bytes → Next × Session o hasher → Result (Option Bytes × Session o hasher)
  leaving rest (returns, s) = ok (none, s)
  leaving rest (goes_on, s) = ok (some rest, s)

  process_rest :
      (fuel : ℕ) (rest : Bytes) (s : Session o hasher)
      → length rest ≤ fuel
      → parse_http_request rest ≡ incomplete
      → process_requests o hasher fuel client rest s ≡ ok (some rest, s)
  unfolding process_requests
  process_rest fuel [] s h e = refl
  process_rest zero (c ∷ rest) s h e = absurd (omega arith)
  process_rest (suc fuel) (c ∷ rest) s h e = ground (arith, e)

  -- A buffer of less than 2 ^ 63 bytes that holds the texts of several requests and then an
  -- incomplete one, with a round for each byte: the inner loop forwards exactly these requests,
  -- in order, until one of them ends the session or fails, and leaves the incomplete one in the
  -- buffer.
  pub process_requests-texts :
      (fuel : ℕ) (parts : List (Bytes × HttpRequest)) (rest : Bytes) (s : Session o hasher)
      → All IsText parts
      → parse_http_request rest ≡ incomplete
      → length (sent_at_once parts rest) < 2 ^ 63
      → length (sent_at_once parts rest) ≤ fuel
      → process_requests o hasher fuel client (sent_at_once parts rest) s
        ≡ (forward_all parts s >>= leaving rest)
  unfolding process_requests forward_all
  process_requests-texts fuel [] rest s a e h f = process_rest fuel rest s f e
  process_requests-texts fuel (([], request) ∷ parts) rest s a e h f =
      absurd (parse_empty request 0 a.0)
  process_requests-texts zero ((c ∷ text, request) ∷ parts) rest s a e h f = absurd (omega arith)
  process_requests-texts (suc fuel) ((c ∷ text, request) ∷ parts) rest s a e h f =
      let more = sent_at_once parts rest in
      let sizes = length-append text more in
      let parsed = parse_http_request-append (c ∷ text) more request (suc (length text)) h a.0 in
      let dropped = drop-append-length (c ∷ text) more in
      elim (Result-cases (forward_request o hasher client request s)) [
        | inr (why, failed) ↦ ground (arith, parsed, failed)
        | inl ((returns, s'), over) ↦ ground (arith, parsed, over)
        | inl ((goes_on, s'), on) ↦
            let again =
              process_requests-texts fuel parts rest s' a.1 e (omega arith) (omega arith) in
            ground (arith, parsed, on, dropped, again)
      ]
