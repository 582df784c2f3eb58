-- ===== src/ProxySession/Requests.antt =====
-- The requests in the buffer of a session: the inner loop ends.
use load_tester_project.Base.{
  ℕ, zero, suc, ◌^◌, ◌≤◌, ◌<◌, true, List, [], ◌∷◌, Option, none, some, Bytes, ◌≡◌, ◌⊎◌, inl, inr,
  refl, sym, ◌∙◌, arith, Bool-cases, length, drop, length-drop,
}
use load_tester_project.Base.Result.{Result, ok, throw, runtime_error, ◌>>=◌}
use load_tester_project.Backend.{Backend}
use load_tester_project.HashRing.{is_empty}
use load_tester_project.Router.{Router, write_targets, read_targets}
use load_tester_project.Router.Reach.{Reach, here, Reach-trans}
use load_tester_project.Router.Routing.{
  preferred, get_write_backends_for_key_lem, get_read_backends_for_key_lem,
}
use load_tester_project.HttpParser.{
  HttpRequest, HttpParseResult, parse_http_request, get_key, complete, incomplete, error,
}
use load_tester_project.HttpParser.Framing.{parse_http_request-IsFramed}
use load_tester_project.Sockets.{Sockets}
use load_tester_project.ProxySession.{
  Session, send_all, Next, returns, goes_on, forward_write, forward_read, find_candidates,
  forward_request, process_requests, is_write_request, unavailable,
}
use load_tester_project.ProxySession.Progress.{
  Ready, Goes, Ends, stays, Goes-trans, returning, stopping, equals, bind, send_all-Ends,
}
use load_tester_project.ProxySession.Choice.{unreached, mark_all-Reach}
use load_tester_project.ProxySession.Replies.{forward_write-Asked}
use load_tester_project.ProxySession.Failover.{Served, Unserved, forward_read-Served}
use mathlib.Core.Path.{subst}

Request-cases :
    (p : HttpParseResult)
    → ((r : HttpRequest) × (n : ℕ) × (p ≡ complete r n))
      ⊎ ((p ≡ incomplete) ⊎ ((why : Bytes) × (p ≡ error why)))
Request-cases (complete r n) = inl (r, n, refl)
Request-cases incomplete = inr (inl refl)
Request-cases (error why) = inr (inr (why, refl))

Next-cases : (n : Next) → (n ≡ returns) ⊎ (n ≡ goes_on)
Next-cases returns = inl refl
Next-cases goes_on = inr refl

find_candidates_lem :
    (hasher : Bytes → ℕ) (request : HttpRequest) (r : Router)
    → ((is_empty r.hash_ring ≡ true) × (find_candidates hasher request r ≡ throw runtime_error))
      ⊎ ((bs : List Backend) × (find_candidates hasher request r ≡ ok bs))
unfolding find_candidates
find_candidates_lem hasher request r =
    let write = get_write_backends_for_key_lem hasher (get_key request) 2 r in
    let read = get_read_backends_for_key_lem hasher (get_key request) 2 r in
    elim (Bool-cases (is_empty r.hash_ring)) [
      | inl empty ↦ elim (Bool-cases (is_write_request request)) [
        | inl w ↦ inl (empty, rw w (write ∙ rw empty))
        | inr w ↦ inl (empty, rw w (read ∙ rw empty))
      ]
      | inr filled ↦ elim (Bool-cases (is_write_request request)) [
        | inl w ↦ inr (
          write_targets r.backends (preferred hasher (get_key request) 2 r),
          rw w (write ∙ rw filled),
        )
        | inr w ↦ inr (
          read_targets r.backends (preferred hasher (get_key request) 2 r),
          rw w (read ∙ rw filled),
        )
      ]
    ]

module _ (o : Sockets) (hasher : Bytes → ℕ) (c : ℕ) where
  -- The exception of a router with an empty ring, which nothing catches.
  pub record Fails {A : Type 0} (s : Session o hasher) (outcome : Result A) : Type 0 where
    pub router : Router
    pub reached : Reach hasher s.router router
    pub empty : is_empty router.hash_ring ≡ true
    pub threw : outcome ≡ throw runtime_error

  -- A request is served, the session is stopped, or the router throws.
  abbrev Outcome : {A : Type 0} → Session o hasher → Result (A × Session o hasher) → Type 0
  Outcome s outcome = Ends o hasher outcome (λ a s'. Goes o hasher c s s') ⊎ Fails s outcome

  forward_request_lem :
      (request : HttpRequest) (s : Session o hasher)
      → Ready o hasher c s
      → Outcome s (forward_request o hasher c request s)
  unfolding forward_request
  forward_request_lem request s r = elim (find_candidates_lem hasher request s.router) [
    | inl (empty, threw) ↦
        inr (record { router = s.router; reached = here; empty = empty; threw = rw threw })
    | inr ([], found) ↦ inl (
        equals o hasher _ (do sent ← send_all o hasher (some c) unavailable s; ok (returns, sent.1))
          (rw found) (λ a s' p. p)
          (bind o hasher _ _ (send_all-Ends o hasher c unavailable s) (λ sent s1 (kept, d).
            returning o hasher _ returns s1 refl (record {
              ready = record {
                open_client = kept.still_open c r.open_client;
                closed = kept.socket_eq ∙ r.closed;
              };
              reached = subst (Reach hasher s.router) (sym kept.router_eq) here;
            }))))
    | inr (b ∷ bs, found) ↦ elim (Bool-cases (is_write_request request)) [
      | inl w ↦ inl (
          equals o hasher _ (forward_write o hasher c request (b ∷ bs) s) (rw found (rw w))
            (λ a s' p. record {
              ready = p.ready;
              reached =
                  subst (Reach hasher s.router) (sym p.marked)
                    (mark_all-Reach hasher (unreached (b ∷ bs) p.answers) s.router);
            })
            (forward_write-Asked o hasher c request (b ∷ bs) s r))
      | inr w ↦ inl (
          equals o hasher _ (forward_read o hasher c request (b ∷ bs) s) (rw found (rw w))
            (λ a s' p. record { ready = p.ready; reached = read_reach (b ∷ bs) p.served })
            (forward_read-Served o hasher c request (b ∷ bs) s r))
    ]
  ]
    where
      read_reach :
          {next : Next} {payload : Bytes} {s s' : Session o hasher} (bs : List Backend)
          → ((next ≡ goes_on) × Served o hasher c payload bs s s')
            ⊎ ((next ≡ returns) × Unserved o hasher c payload bs s s')
          → Reach hasher s.router s'.router
      read_reach {s} bs (inl (is, v)) =
          subst (Reach hasher s.router) (sym v.marked) (mark_all-Reach hasher v.before s.router)
      read_reach {s} bs (inr (is, u)) =
          subst (Reach hasher s.router) (sym u.marked) (mark_all-Reach hasher bs s.router)

  -- The inner loop leaves no more in the buffer than there was.
  pub record Processes (buffer : Bytes) (s : Session o hasher) (rest : Option Bytes)
      (after : Session o hasher) : Type 0 where
    pub goes : Goes o hasher c s after
    pub shorter : (left : Bytes) → rest ≡ some left → length left ≤ length buffer

  same_buffer :
      (buffer left : Bytes)
      → ◌≡◌ {A = Option Bytes} (some buffer) (some left)
      → length left ≤ length buffer
  same_buffer buffer left e = let p : buffer ≡ left = cc e in rw p (omega arith)

  pub Fails-later :
      {A B : Type 0} (s s' : Session o hasher) (m : Result A) (m' : Result B)
      → Reach hasher s.router s'.router
      → (m' ≡ throw runtime_error → m ≡ throw runtime_error)
      → Fails s' m'
      → Fails s m
  Fails-later s s' m m' g e f = record {
    router = f.router;
    reached = Reach-trans g f.reached;
    empty = f.empty;
    threw = e f.threw;
  }

  carries_on :
      (buffer tail : Bytes) (s s' : Session o hasher)
      (outcome outcome' : Result (Option Bytes × Session o hasher))
      → length tail ≤ length buffer
      → Goes o hasher c s s'
      → outcome ≡ outcome'
      → Ends o hasher outcome' (Processes tail s') ⊎ Fails s' outcome'
      → Ends o hasher outcome (Processes buffer s) ⊎ Fails s outcome
  carries_on buffer tail s s' outcome outcome' h g e (inl ends) = inl (
      equals o hasher outcome outcome' e
        (λ rest s2 p. record {
          goes = Goes-trans o hasher c s s' s2 g p.goes;
          shorter = λ left q. omega (arith, h, p.shorter left q);
        })
        ends)
  carries_on buffer tail s s' outcome outcome' h g e (inr f) =
      inr (Fails-later s s' outcome outcome' g.reached (λ q. e ∙ q) f)

  pub process_requests_lem :
      (fuel : ℕ) (buffer : Bytes) (s : Session o hasher)
      → length buffer ≤ fuel
      → length buffer < 2 ^ 63
      → Ready o hasher c s
      → Ends o hasher (process_requests o hasher fuel c buffer s) (Processes buffer s)
        ⊎ Fails s (process_requests o hasher fuel c buffer s)
  unfolding process_requests
  process_requests_lem fuel [] s h len r = inl (
      returning o hasher _ (some []) s refl
        (record { goes = stays o hasher c s r; shorter = same_buffer [] }))
  process_requests_lem zero (x ∷ xs) s h len r = absurd (omega arith)
  process_requests_lem (suc fuel) (x ∷ xs) s h len r =
      elim (Request-cases (parse_http_request (x ∷ xs))) [
        | inr (inl e) ↦ inl (
            returning o hasher _ (some (x ∷ xs)) s (ground (arith, e))
              (record { goes = stays o hasher c s r; shorter = same_buffer (x ∷ xs) }))
        | inr (inr (why, e)) ↦ inl (
            returning o hasher _ none s (ground (arith, e))
              (record { goes = stays o hasher c s r; shorter = λ left p. absurd (cc p) }))
        | inl (request, n, e) ↦
            let framed = parse_http_request-IsFramed (x ∷ xs) request n len e in
            let taken : 0 < n = omega (arith, framed.consumed_eq) in
            let tail = drop n (x ∷ xs) in
            let size : suc (length tail) ≤ length (x ∷ xs) =
              omega (arith, length-drop n (x ∷ xs)) in
            elim (forward_request_lem request s r) [
              | inr f ↦ inr (Fails-later s s _ _ here (λ q. ground (arith, e, q)) f)
              | inl (inr stop) ↦
                  inl (stopping o hasher _ stop.why (ground (arith, e, stop.threw)) stop.cause)
              | inl (inl done) ↦ elim (Next-cases done.value) [
                | inl stop ↦ inl (
                    returning o hasher _ none done.after (ground (arith, e, done.returned, stop))
                      (record { goes = done.post; shorter = λ left p. absurd (cc p) }))
                | inr go ↦
                    carries_on (x ∷ xs) tail s done.after _
                      (process_requests o hasher fuel c tail done.after) (omega arith) done.post
                      (ground (arith, e, done.returned, go))
                      (process_requests_lem fuel tail done.after (omega arith) (omega arith)
                        done.post.ready)
              ]
            ]
      ]
