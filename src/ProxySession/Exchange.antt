-- ===== src/ProxySession/Exchange.antt =====
-- A backend is asked: what is sent to it, what is received, and what its answer is.
use load_tester_project.Base.{
  ℕ, zero, suc, ◌+◌, ◌≤◌, ◌<◌, ◌^◌, [], ◌∷◌, ◌++◌, append_assoc, append-nil, some, Bytes, ◌≡◌, ◌≢◌,
  ◌⊎◌, inl, inr, refl, sym, ap, ◌∙◌, arith, Bool-cases, codes, length, length-append, ltb,
}
use mathlib.Core.Path.{subst}
use load_tester_project.Base.Result.{blocked, length_error}
use load_tester_project.Sockets.{Sockets, Received, gives, waits_forever}
use load_tester_project.HttpResponse.{
  HttpResponse, HttpResponseParseResult, complete, incomplete, error, parse_http_response,
}
use load_tester_project.ProxySession.{
  Session, recv_backend, read_backend_response, Answer, no_answer, answered, answer_of,
  append_bytes,
}
use load_tester_project.ProxySession.Progress.{
  Ends, returning, stopping, equals, Kept, Kept-refl, Kept-trans, silent_peer, long_text,
}

pub Parse-cases :
    (p : HttpResponseParseResult)
    → ((r : HttpResponse) × (n : ℕ) × (p ≡ complete r n))
      ⊎ ((p ≡ incomplete) ⊎ ((why : Bytes) × (p ≡ error why)))
Parse-cases (complete r n) = inl (r, n, refl)
Parse-cases incomplete = inr (inl refl)
Parse-cases (error why) = inr (inr (why, refl))

pub Received-cases :
    (r : Received)
    → (r ≡ gives []) ⊎ (((x : ℕ) × (v : Bytes) × (r ≡ gives (x ∷ v))) ⊎ (r ≡ waits_forever))
Received-cases (gives []) = inl refl
Received-cases (gives (x ∷ v)) = inr (inl (x, v, refl))
Received-cases waits_forever = inr (inr refl)

-- What the bytes that a backend has sent say: a complete response, or none.
pub data Says (bytes : Bytes) : Answer → Type 0 where
  response :
      {r : HttpResponse} {n : ℕ}
      → parse_http_response bytes ≡ complete r n
      → Says bytes (answered r)
  nothing :
      ((r : HttpResponse) (n : ℕ) → parse_http_response bytes ≢ complete r n) → Says bytes no_answer

module _ (o : Sockets) (hasher : Bytes → ℕ) where
  -- Bytes that a descriptor has given.
  pub record Takes (fd : ℕ) (bytes : Bytes) (os os' : o.Os) : Type 0 where
    pub given : o.traffic fd os' ≡ ((o.traffic fd os).0, (o.traffic fd os).1 ++ bytes)
    pub others : (c : ℕ) → c ≢ fd → o.traffic c os' ≡ o.traffic c os

  Takes-nil : (fd : ℕ) (os : o.Os) → Takes fd [] os os
  Takes-nil fd os = record {
    given = ap (λ t. ((o.traffic fd os).0, t)) (sym (append-nil (o.traffic fd os).1));
    others = λ c ne. refl;
  }

  Takes-recv :
      (fd : ℕ) (bytes : Bytes) (os : o.Os)
      → (o.recv fd os).0 ≡ gives bytes
      → Takes fd bytes os (o.recv fd os).1
  Takes-recv fd bytes os e = record {
    given = o.recv_gives fd bytes os e;
    others = λ c ne. o.recv_other c fd os ne;
  }

  Takes-trans :
      (fd : ℕ) (a b : Bytes) (os os1 os2 : o.Os)
      → Takes fd a os os1
      → Takes fd b os1 os2
      → Takes fd (a ++ b) os os2
  Takes-trans fd a b os os1 os2 p q = record {
    given =
        q.given
        ∙ ap (λ t. (t.0, t.1 ++ b)) p.given
        ∙ ap (λ t. ((o.traffic fd os).0, t)) (append_assoc (o.traffic fd os).1 a b);
    others = λ c ne. q.others c ne ∙ p.others c ne;
  }

  -- What is read of a backend, behind what was read before.
  abbrev pub Reads :
      ℕ → Bytes → Session o hasher → HttpResponseParseResult → Session o hasher → Type 0
  Reads fd buffer s result s' =
      Kept o hasher s s'
      × ((bytes : Bytes) × Takes fd bytes s.os s'.os × Says (buffer ++ bytes) (answer_of result))

  Says-result :
      (buffer : Bytes) (result : HttpResponseParseResult)
      → parse_http_response buffer ≡ result
      → Says (buffer ++ []) (answer_of result)
  unfolding answer_of
  Says-result buffer (complete r n) e = response (ap parse_http_response (append-nil buffer) ∙ e)
  Says-result buffer incomplete e =
      nothing (λ r n p. cc (p, e, ap parse_http_response (append-nil buffer)))
  Says-result buffer (error why) e =
      nothing (λ r n p. cc (p, e, ap parse_http_response (append-nil buffer)))

  pub read_backend_response-Ends :
      (fuel fd : ℕ) (buffer : Bytes) (s : Session o hasher)
      → s.backend_socket ≡ some fd
      → length buffer < 2 ^ 63
      → 2 ^ 63 ≤ length buffer + fuel
      → Ends o hasher (read_backend_response o hasher fuel buffer s) (Reads fd buffer s)
  unfolding read_backend_response
  read_backend_response-Ends zero fd buffer s at len h = absurd (omega (arith, len, h))
  read_backend_response-Ends (suc fuel) fd buffer s at len h =
      elim (Parse-cases (parse_http_response buffer)) [
        | inl (r, n, e) ↦
            returning o hasher _ (complete r n) s (ground (arith, e))
              (Kept-refl o hasher s, ([], Takes-nil fd s.os, Says-result buffer (complete r n) e))
        | inr (inr (why, e)) ↦
            returning o hasher _ (error why) s (ground (arith, e))
              (Kept-refl o hasher s, ([], Takes-nil fd s.os, Says-result buffer (error why) e))
        | inr (inl e) ↦
            let got = o.recv fd s.os in
            let s1 : Session o hasher = record s { os = got.1 } in
            let kept : Kept o hasher s s1 = record {
              router_eq = refl;
              socket_eq = refl;
              still_open = λ c p. o.recv_law c fd s.os p;
            } in
            let asked : recv_backend o hasher s ≡ (got.0, s1) =
              unfold recv_backend in ground (arith, at) in
            elim (Received-cases got.0) [
              | inl ended ↦
                  let why = codes "Backend connection closed or error" in
                  returning o hasher _ (error why) s1 (ground (arith, e, asked, ended)) (
                    kept,
                    (
                      [],
                      Takes-recv fd [] s.os ended,
                      unfold answer_of in Says-result buffer incomplete e,
                    ),
                  )
              | inr (inr silent) ↦
                  stopping o hasher _ blocked (ground (arith, e, asked, silent))
                    (silent_peer fd s.os silent)
              | inr (inl (x, v, some_got)) ↦
                  let more = buffer ++ x ∷ v in
                  let size = length-append buffer (x ∷ v) in
                  elim (Bool-cases (ltb (length more) (2 ^ 63))) [
                    | inr too_long ↦
                        stopping o hasher _ length_error
                          (unfold append_bytes in ground (arith, e, asked, some_got, too_long))
                          (long_text more (ground (arith, too_long)))
                    | inl fits ↦
                        equals o hasher _ (read_backend_response o hasher fuel more s1)
                          (unfold append_bytes in ground (arith, e, asked, some_got, fits))
                          (λ result s' (k, (bytes, t, says)). (
                            Kept-trans o hasher s s1 s' kept k,
                            (
                              (x ∷ v) ++ bytes,
                              Takes-trans fd (x ∷ v) bytes s.os s1.os s'.os
                                  (Takes-recv fd (x ∷ v) s.os some_got) t,
                              subst (λ t. Says t (answer_of result))
                                  (append_assoc buffer (x ∷ v) bytes) says,
                            ),
                          ))
                          (read_backend_response-Ends fuel fd more s1 at (ground (arith, fits))
                            (omega (arith, size, h)))
                  ]
            ]
      ]
