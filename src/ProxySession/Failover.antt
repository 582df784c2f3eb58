-- ===== src/ProxySession/Failover.antt =====
-- A read goes to one candidate after the other until one answers.
use load_tester_project.Base.{
  ℕ, Bool, true, false, List, [], ◌∷◌, ◌++◌, Bytes, ◌≡◌, ◌⊎◌, inl, inr, refl, ap, ◌∙◌,
}
use load_tester_project.Backend.{Backend}
use load_tester_project.Sockets.{Sockets}
use load_tester_project.HttpParser.{HttpRequest}
use load_tester_project.HttpResponse.{HttpResponse}
use load_tester_project.ProxySession.{
  Session, close_backend, mark_down, unreachable, no_answer, answered, Next, goes_on, returns,
  read_from_first, forward_read, unavailable,
}
use load_tester_project.ProxySession.Progress.{
  Ready, Ends, returning, equals, bind, Delivers, send_all-Ends,
}
use load_tester_project.ProxySession.Talk.{
  Silent, Talks, Talks-client, Behind, exchange-Ends, close_backend_lem,
}
use load_tester_project.ProxySession.Choice.{mark_all}

module _ (o : Sockets) (hasher : Bytes → ℕ) (client : ℕ) (payload : Bytes) where
  -- One candidate after the other cannot be reached, or is sent the payload and does not answer.
  pub data Failed : List Backend → o.Os → o.Os → Type 0 where
    none_asked : {os : o.Os} → Failed [] os os
    unreached :
        {b : Backend} {bs : List Backend} {os os1 os' : o.Os}
        → Talks o hasher client b payload os os1 unreachable
        → Failed bs os1 os'
        → Failed (b ∷ bs) os os'
    silent :
        {b : Backend} {bs : List Backend} {os os1 os2 os' : o.Os}
        → Talks o hasher client b payload os os1 no_answer
        → Silent o hasher os1 os2
        → Failed bs os2 os'
        → Failed (b ∷ bs) os os'

  -- Nothing of it concerns the client.
  Failed-client :
      (bs : List Backend) (os os' : o.Os)
      → Failed bs os os'
      → o.traffic client os' ≡ o.traffic client os
  Failed-client [] os os' none_asked = refl
  Failed-client (b ∷ bs) os os' (unreached {os1} t rest) =
      Failed-client bs os1 os' rest ∙ Talks-client o hasher client b payload os os1 unreachable t
  Failed-client (b ∷ bs) os os' (silent {os1} {os2} t quiet rest) =
      Failed-client bs os2 os' rest
      ∙ quiet client
      ∙ Talks-client o hasher client b payload os os1 no_answer t

  -- The candidate `b` has answered `r`, after those before it have failed; the response is sent to
  -- the client.
  pub record Served (bs : List Backend) (s s' : Session o hasher) : Type 0 where
    pub before : List Backend
    pub rest : List Backend
    pub b : Backend
    pub r : HttpResponse
    pub then_asked : o.Os
    pub answered_in : o.Os
    pub sent_in : o.Os
    pub candidates_eq : bs ≡ before ++ b ∷ rest
    pub failed : Failed before s.os then_asked
    pub answer : Talks o hasher client b payload then_asked answered_in (answered r)
    pub untouched : o.traffic client answered_in ≡ o.traffic client s.os
    pub reply : Delivers o hasher client r.raw_response answered_in sent_in
    pub closed : Silent o hasher sent_in s'.os
    pub marked : s'.router ≡ mark_all hasher before s.router

  -- Every candidate has failed.
  record AllFailed (bs : List Backend) (s s' : Session o hasher) : Type 0 where
    failed : Failed bs s.os s'.os
    marked : s'.router ≡ mark_all hasher bs s.router

  Outcome : List Backend → Session o hasher → Bool → Session o hasher → Type 0
  Outcome bs s found s' =
      Ready o hasher client s'
      × (((found ≡ true) × Served bs s s') ⊎ ((found ≡ false) × AllFailed bs s s'))

  -- The first candidate has failed.
  one_more :
      (b : Backend) (bs : List Backend) (s s1 : Session o hasher)
      → ((l : List Backend) (os' : o.Os) → Failed l s1.os os' → Failed (b ∷ l) s.os os')
      → s1.router ≡ mark_all hasher (b ∷ []) s.router
      → o.traffic client s1.os ≡ o.traffic client s.os
      → (found : Bool) (s' : Session o hasher) → Outcome bs s1 found s'
      → Outcome (b ∷ bs) s found s'
  unfolding Outcome mark_all
  one_more b bs s s1 f m same found s' (ready, inl (is, v)) = (
    ready,
    inl (
      is,
      record {
        before = b ∷ v.before;
        rest = v.rest;
        b = v.b;
        r = v.r;
        then_asked = v.then_asked;
        answered_in = v.answered_in;
        sent_in = v.sent_in;
        candidates_eq = ap (◌∷◌ b) v.candidates_eq;
        failed = f v.before v.then_asked v.failed;
        answer = v.answer;
        untouched = v.untouched ∙ same;
        reply = v.reply;
        closed = v.closed;
        marked = v.marked ∙ ap (mark_all hasher v.before) m;
      },
    ),
  )
  one_more b bs s s1 f m same found s' (ready, inr (is, u)) = (
    ready,
    inr (
      is,
      record { failed = f bs s'.os u.failed; marked = u.marked ∙ ap (mark_all hasher bs) m },
    ),
  )

  read_from_first-Ends :
      (bs : List Backend) (s : Session o hasher)
      → Ready o hasher client s
      → Ends o hasher (read_from_first o hasher client bs payload s) (Outcome bs s)
  unfolding read_from_first Outcome mark_all mark_down
  read_from_first-Ends [] s r =
      returning o hasher _ false s refl
        (r, inr (refl, record { failed = none_asked; marked = refl }))
  read_from_first-Ends (b ∷ bs) s r =
      bind o hasher _ _ (exchange-Ends o hasher client b payload s r) (elim [
        | unreachable ↦ λ s1 (t, h).
            let gone = mark_down o hasher b s1 in
            equals o hasher _ _ refl
              (one_more b bs s gone (λ l os' f. unreached t f)
                (ap (mark_all hasher (b ∷ [])) h.router_eq)
                (Talks-client o hasher client b payload s.os s1.os unreachable t))
              (read_from_first-Ends bs gone
                (record { open_client = h.open_client; closed = h.free refl }))
        | no_answer ↦ λ s1 (t, h).
            let (ready, router, quiet) = close_backend_lem o hasher client no_answer s s1 h in
            let gone = mark_down o hasher b (close_backend o hasher s1) in
            equals o hasher _ _ refl
              (one_more b bs s gone (λ l os' f. silent t quiet f)
                (ap (mark_all hasher (b ∷ [])) router)
                (quiet client ∙ Talks-client o hasher client b payload s.os s1.os no_answer t))
              (read_from_first-Ends bs gone
                (record { open_client = ready.open_client; closed = ready.closed }))
        | answered x ↦ λ s1 (t, h).
            bind o hasher _ _ (send_all-Ends o hasher client x.raw_response s1)
              (λ whole s2 (kept, sent).
                let now : Behind o hasher client (answered x) s s2 = record {
                  router_eq = kept.router_eq ∙ h.router_eq;
                  open_client = kept.still_open client h.open_client;
                  apart = λ p. h.apart (cc (p, kept.socket_eq));
                  free = λ e. absurd (cc e);
                } in
                let (ready, router, quiet) =
                  close_backend_lem o hasher client (answered x) s s2 now in
                returning o hasher _ true (close_backend o hasher s2) refl (
                  ready,
                  inl (
                    refl,
                    record {
                      before = [];
                      rest = bs;
                      b = b;
                      r = x;
                      then_asked = s.os;
                      answered_in = s1.os;
                      sent_in = s2.os;
                      candidates_eq = refl;
                      failed = none_asked;
                      answer = t;
                      untouched = Talks-client o hasher client b payload s.os s1.os (answered x) t;
                      reply = sent;
                      closed = quiet;
                      marked = router;
                    },
                  ),
                ))
      ])

  -- No candidate has answered; the client is sent 503.
  pub record Unserved (bs : List Backend) (s s' : Session o hasher) : Type 0 where
    pub replied : o.Os
    pub failed : Failed bs s.os replied
    pub untouched : o.traffic client replied ≡ o.traffic client s.os
    pub reply : Delivers o hasher client unavailable replied s'.os
    pub marked : s'.router ≡ mark_all hasher bs s.router

  -- What a read comes to.
  pub record ReadServed (bs : List Backend) (s : Session o hasher) (next : Next)
      (s' : Session o hasher) : Type 0 where
    pub ready : Ready o hasher client s'
    pub served : ((next ≡ goes_on) × Served bs s s') ⊎ ((next ≡ returns) × Unserved bs s s')

pub forward_read-Served :
    (o : Sockets) (hasher : Bytes → ℕ) (client : ℕ) (request : HttpRequest) (bs : List Backend)
    (s : Session o hasher)
    → Ready o hasher client s
    → Ends o hasher
        (forward_read o hasher client request bs s)
        (ReadServed o hasher client request.raw_request bs s)
unfolding forward_read Outcome
forward_read-Served o hasher client request bs s r =
    bind o hasher _ _ (read_from_first-Ends o hasher client request.raw_request bs s r) (elim [
      | true ↦ λ s1 (ready, got). elim got [
        | inl (is, v) ↦
            returning o hasher _ goes_on s1 refl (record { ready = ready; served = inl (refl, v) })
        | inr (is, u) ↦ absurd (cc is)
      ]
      | false ↦ λ s1 (ready, got). elim got [
        | inl (is, v) ↦ absurd (cc is)
        | inr (is, u) ↦
            bind o hasher _ _ (send_all-Ends o hasher client unavailable s1)
              (λ whole s2 (kept, sent). returning o hasher _ returns s2 refl (record {
                ready = record {
                  open_client = kept.still_open client ready.open_client;
                  closed = kept.socket_eq ∙ ready.closed;
                };
                served = inr (
                  refl,
                  record {
                    replied = s1.os;
                    failed = u.failed;
                    untouched =
                        Failed-client o hasher client request.raw_request bs s.os s1.os u.failed;
                    reply = sent;
                    marked = kept.router_eq ∙ u.marked;
                  },
                );
              }))
      ]
    ])
