-- ===== src/ProxySession/Replies.antt =====
-- A write goes to every candidate, and the client is sent one of the responses.
use load_tester_project.Base.{ℕ, List, [], ◌∷◌, Bytes, ◌≡◌, refl, ap, ◌∙◌}
use load_tester_project.Backend.{Backend}
use load_tester_project.Sockets.{Sockets}
use load_tester_project.HttpParser.{HttpRequest}
use load_tester_project.ProxySession.{
  Session, close_backend, mark_down, Answer, unreachable, no_answer, answered, Next, goes_on,
  Written, nothing_written, write_to_all, forward_write, request_payload, reply_to_write, note,
}
use load_tester_project.ProxySession.Progress.{
  Ready, Ends, returning, equals, bind, Delivers, send_all-Ends,
}
use load_tester_project.ProxySession.Talk.{
  Silent, Talks, Talks-client, Behind, exchange-Ends, close_backend_lem,
}
use load_tester_project.ProxySession.Choice.{
  responses, unreached, mark_all, write_reply, noted, reply_to_write-noted,
}

module _ (o : Sockets) (hasher : Bytes → ℕ) (client : ℕ) where
  -- Each backend in turn is sent the payload, and gives its answer.
  pub data Asked (payload : Bytes) : List Backend → o.Os → List Answer → o.Os → Type 0 where
    all_asked : {os : o.Os} → Asked payload [] os [] os
    ask :
        {b : Backend} {bs : List Backend} {os os1 os2 os' : o.Os} {a : Answer}
        {answers : List Answer}
        → Talks o hasher client b payload os os1 a
        → Silent o hasher os1 os2
        → Asked payload bs os2 answers os'
        → Asked payload (b ∷ bs) os (a ∷ answers) os'

  -- Nothing of it concerns the client.
  Asked-client :
      (payload : Bytes) (bs : List Backend) (os os' : o.Os) (answers : List Answer)
      → Asked payload bs os answers os'
      → o.traffic client os' ≡ o.traffic client os
  Asked-client payload [] os os' answers all_asked = refl
  Asked-client payload (b ∷ bs) os os' [] x = elim x [ ]
  Asked-client payload (b ∷ bs) os os' (a ∷ answers) (ask {os1} {os2} t silent rest) =
      Asked-client payload bs os2 os' answers rest
      ∙ silent client
      ∙ Talks-client o hasher client b payload os os1 a t

  settled : Backend → Answer → Session o hasher → Session o hasher
  settled b unreachable s = mark_down o hasher b s
  settled b no_answer s = close_backend o hasher s
  settled b (answered r) s = close_backend o hasher s

  settled_lem :
      (b : Backend) (a : Answer) (s s1 : Session o hasher)
      → Behind o hasher client a s s1
      → Ready o hasher client (settled b a s1)
        × ((settled b a s1).router ≡ mark_all hasher (unreached (b ∷ []) (a ∷ [])) s.router)
        × Silent o hasher s1.os (settled b a s1).os
  unfolding settled mark_down mark_all unreached
  settled_lem b unreachable s s1 h = (
    record { open_client = h.open_client; closed = h.free refl },
    ap (mark_all hasher (b ∷ [])) h.router_eq,
    λ q. refl,
  )
  settled_lem b no_answer s s1 h = close_backend_lem o hasher client no_answer s s1 h
  settled_lem b (answered r) s s1 h = close_backend_lem o hasher client (answered r) s s1 h

  -- One more candidate in front.
  unreached-cons :
      (b : Backend) (bs : List Backend) (a : Answer) (answers : List Answer) (s : Session o hasher)
      → mark_all hasher
          (unreached bs answers)
          (mark_all hasher (unreached (b ∷ []) (a ∷ [])) s.router)
        ≡ mark_all hasher (unreached (b ∷ bs) (a ∷ answers)) s.router
  unfolding mark_all unreached
  unreached-cons b bs unreachable answers s = refl
  unreached-cons b bs no_answer answers s = refl
  unreached-cons b bs (answered r) answers s = refl

  noted-cons :
      (w : Written) (a : Answer) (answers : List Answer)
      → noted (noted w (responses (a ∷ []))) (responses answers) ≡ noted w (responses (a ∷ answers))
  unfolding noted responses
  noted-cons w unreachable answers = refl
  noted-cons w no_answer answers = refl
  noted-cons w (answered r) answers = refl

  record Wrote (payload : Bytes) (bs : List Backend) (w : Written) (s : Session o hasher)
      (w' : Written) (s' : Session o hasher) : Type 0 where
    answers : List Answer
    asked : Asked payload bs s.os answers s'.os
    marked : s'.router ≡ mark_all hasher (unreached bs answers) s.router
    wrote : w' ≡ noted w (responses answers)
    ready : Ready o hasher client s'

  module _ (payload : Bytes) where
    more-Wrote :
        (b : Backend) (bs : List Backend) (w : Written) (s s1 : Session o hasher) (a : Answer)
        → Talks o hasher client b payload s.os s1.os a
        → Behind o hasher client a s s1
        → (w' : Written) (s' : Session o hasher)
        → Wrote payload bs (noted w (responses (a ∷ []))) (settled b a s1) w' s'
        → Wrote payload (b ∷ bs) w s w' s'
    more-Wrote b bs w s s1 a t h w' s' rest =
        let (ready, router, silent) = settled_lem b a s s1 h in
        record {
          answers = a ∷ rest.answers;
          asked = ask t silent rest.asked;
          marked =
              rest.marked
              ∙ ap (mark_all hasher (unreached bs rest.answers)) router
              ∙ unreached-cons b bs a rest.answers s;
          wrote = rest.wrote ∙ noted-cons w a rest.answers;
          ready = rest.ready;
        }

    write_to_all-Ends :
        (bs : List Backend) (w : Written) (s : Session o hasher)
        → Ready o hasher client s
        → Ends o hasher (write_to_all o hasher bs payload w s) (Wrote payload bs w s)
    unfolding write_to_all settled noted responses
    write_to_all-Ends [] w s r = returning o hasher _ w s refl (record {
      answers = [];
      asked = all_asked;
      marked = unfold mark_all unreached in refl;
      wrote = refl;
      ready = r;
    })
    write_to_all-Ends (b ∷ bs) w s r =
        bind o hasher _ _ (exchange-Ends o hasher client b payload s r) (elim [
          | unreachable ↦ λ s1 (t, h).
              equals o hasher _ _ refl (more-Wrote b bs w s s1 unreachable t h) (
                write_to_all-Ends bs w (settled b unreachable s1)
                  (settled_lem b unreachable s s1 h).0)
          | no_answer ↦ λ s1 (t, h).
              equals o hasher _ _ refl (more-Wrote b bs w s s1 no_answer t h)
                (write_to_all-Ends bs w (settled b no_answer s1) (settled_lem b no_answer s s1 h).0)
          | answered x ↦ λ s1 (t, h).
              equals o hasher _ _ refl (more-Wrote b bs w s s1 (answered x) t h) (
                write_to_all-Ends bs (note x w) (settled b (answered x) s1)
                  (settled_lem b (answered x) s s1 h).0)
        ])

  -- What a write comes to.
  pub record WriteServed (request : HttpRequest) (bs : List Backend) (s : Session o hasher)
      (next : Next) (s' : Session o hasher) : Type 0 where
    pub answers : List Answer
    pub replied : o.Os
    pub asked : Asked (request_payload request) bs s.os answers replied
    pub untouched : o.traffic client replied ≡ o.traffic client s.os
    pub marked : s'.router ≡ mark_all hasher (unreached bs answers) s.router
    pub reply : Delivers o hasher client (write_reply (responses answers)) replied s'.os
    pub goes : next ≡ goes_on
    pub ready : Ready o hasher client s'

pub forward_write-Asked :
    (o : Sockets) (hasher : Bytes → ℕ) (client : ℕ) (request : HttpRequest) (bs : List Backend)
    (s : Session o hasher)
    → Ready o hasher client s
    → Ends o hasher
        (forward_write o hasher client request bs s)
        (WriteServed o hasher client request bs s)
unfolding forward_write
forward_write-Asked o hasher client request bs s r =
    bind o hasher _ _
      (write_to_all-Ends o hasher client (request_payload request) bs nothing_written s r)
      (λ w s1 wrote.
        let text : reply_to_write w ≡ write_reply (responses wrote.answers) =
          ap reply_to_write wrote.wrote ∙ reply_to_write-noted (responses wrote.answers) in
        bind o hasher _ _ (send_all-Ends o hasher client (reply_to_write w) s1)
          (λ whole s2 (kept, sent). returning o hasher _ goes_on s2 refl (record {
            answers = wrote.answers;
            replied = s1.os;
            asked = wrote.asked;
            untouched = Asked-client o hasher client _ bs s.os s1.os wrote.answers wrote.asked;
            marked = kept.router_eq ∙ wrote.marked;
            reply = rw (← text) sent;
            goes = refl;
            ready = record {
              open_client = kept.still_open client wrote.ready.open_client;
              closed = kept.socket_eq ∙ wrote.ready.closed;
            };
          })))
