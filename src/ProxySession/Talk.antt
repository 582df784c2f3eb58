-- ===== src/ProxySession/Talk.antt =====
-- One exchange with one backend, as the peers see it, and what the session does behind it.
use load_tester_project.Base.{
  ℕ, ◌^◌, true, false, [], none, some, Bytes, ◌≡◌, ◌≢◌, inl, inr, refl, sym, ap, ◌∙◌, arith,
  Bool-cases, Option-cases, ◌⊎◌,
}
use load_tester_project.Base.Result.{Result, ok, ◌>>=◌}
use load_tester_project.Backend.{Backend}
use load_tester_project.Sockets.{Sockets}
use load_tester_project.HttpResponse.{HttpResponseParseResult, complete, incomplete, error}
use load_tester_project.ProxySession.{
  Session, send_all, connect_to_backend, close_backend, read_backend_response, Answer, unreachable,
  answer_of, exchange, sin_port,
}
use load_tester_project.ProxySession.Progress.{
  Ready, Ends, returning, equals, bind, Delivers, send_all-Ends,
}
use load_tester_project.ProxySession.Exchange.{Says, Takes, read_backend_response-Ends}

module _ (o : Sockets) (hasher : Bytes → ℕ) where
  answer_of_lem : (result : HttpResponseParseResult) → answer_of result ≢ unreachable
  unfolding answer_of
  answer_of_lem (complete r n) e = cc e
  answer_of_lem incomplete e = cc e
  answer_of_lem (error why) e = cc e

  -- No byte has moved on any descriptor.
  abbrev pub Silent : o.Os → o.Os → Type 0
  Silent os os' = (q : ℕ) → o.traffic q os' ≡ o.traffic q os

  -- A connection to a backend, on which it is sent the payload and has sent what it says.
  pub record Talk (c : ℕ) (b : Backend) (payload : Bytes) (a : Answer) (os os' : o.Os)
      : Type 0 where
    pub fd : ℕ
    pub not_client : c ≢ fd
    pub dialling : o.Os
    pub begun : o.Os
    pub asked : o.Os
    pub connected : o.connect fd b.ip (sin_port b.port) dialling ≡ (true, begun)
    pub silent : Silent os begun
    pub sent : Delivers o hasher fd payload begun asked
    pub bytes : Bytes
    pub received : Takes o hasher fd bytes asked os'
    pub says : Says bytes a

  -- What an exchange comes to.
  pub data Talks (c : ℕ) (b : Backend) (payload : Bytes) (os os' : o.Os) : Answer → Type 0 where
    refused : Silent os os' → Talks c b payload os os' unreachable
    talked : {a : Answer} → Talk c b payload a os os' → Talks c b payload os os' a

  -- Nothing of it concerns the client.
  pub Talks-client :
      (c : ℕ) (b : Backend) (payload : Bytes) (os os' : o.Os) (a : Answer)
      → Talks c b payload os os' a
      → o.traffic c os' ≡ o.traffic c os
  Talks-client c b payload os os' a (refused silent) = silent c
  Talks-client c b payload os os' a (talked t) =
      t.received.others c t.not_client ∙ t.sent.others c t.not_client ∙ t.silent c

  -- The connection of a session behind an exchange.
  pub record Behind (c : ℕ) (a : Answer) (s s' : Session o hasher) : Type 0 where
    pub router_eq : s'.router ≡ s.router
    pub open_client : o.is_open c s'.os ≡ true
    pub apart : s'.backend_socket ≢ some c
    pub free : a ≡ unreachable → s'.backend_socket ≡ none

  module _ (c : ℕ) where
    -- What a connection attempt comes to.
    record Dialled (b : Backend) (s : Session o hasher) : Type 0 where
      fd : ℕ
      dialling : o.Os
      begun : o.Os
      made :
          connect_to_backend o hasher b s
          ≡ (true, record s { backend_socket = some fd; os = begun })
      connected : o.connect fd b.ip (sin_port b.port) dialling ≡ (true, begun)
      not_client : c ≢ fd
      silent : Silent s.os begun
      open_client : o.is_open c begun ≡ true

    record Refused (b : Backend) (s : Session o hasher) : Type 0 where
      after : o.Os
      failed : connect_to_backend o hasher b s ≡ (false, record s { os = after })
      silent : Silent s.os after
      open_client : o.is_open c after ≡ true

    connect_to_backend_lem :
        (b : Backend) (s : Session o hasher) → Ready o hasher c s → Dialled b s ⊎ Refused b s
    unfolding connect_to_backend
    connect_to_backend_lem b s r =
        let made = o.socket s.os in
        let op = o.socket_law c s.os r.open_client in
        elim (Option-cases made.0) [
          | inl no_fd ↦ inr (record {
            after = made.1;
            failed = ground (arith, r.closed, no_fd);
            silent = λ q. o.socket-traffic q s.os;
            open_client = op;
          })
          | inr (fd, given) ↦
              let other : c ≢ fd =
                λ p. o.socket_fresh c s.os r.open_client (given ∙ ap some (sym p)) in
              let tried = o.connect fd b.ip (sin_port b.port) made.1 in
              let kept = o.connect_law c fd b.ip (sin_port b.port) made.1 other op in
              let quiet : Silent s.os tried.1 = λ q.
                o.connect-traffic q fd b.ip (sin_port b.port) made.1 ∙ o.socket-traffic q s.os in
              elim (Bool-cases tried.0) [
                | inl good ↦ inl (record {
                  fd = fd;
                  dialling = made.1;
                  begun = tried.1;
                  made = ground (arith, r.closed, given, good);
                  connected = ap (λ x. (x, tried.1)) good;
                  not_client = other;
                  silent = quiet;
                  open_client = kept;
                })
                | inr bad ↦ inr (record {
                  after = o.close fd tried.1;
                  failed = ground (arith, r.closed, given, bad);
                  silent = λ q. o.close-traffic q fd tried.1 ∙ quiet q;
                  open_client = o.close_law c fd tried.1 other kept;
                })
              ]
        ]

    pub exchange-Ends :
        (b : Backend) (payload : Bytes) (s : Session o hasher)
        → Ready o hasher c s
        → Ends o hasher
            (exchange o hasher b payload s)
            (λ a s'. Talks c b payload s.os s'.os a × Behind c a s s')
    unfolding exchange
    exchange-Ends b payload s r = elim (connect_to_backend_lem b s r) [
      | inr f ↦
          returning o hasher _ unreachable (record s { os = f.after }) (ground (arith, f.failed))
            (
              refused f.silent,
              record {
                router_eq = refl;
                open_client = f.open_client;
                apart = λ p. cc (p, r.closed);
                free = λ p. r.closed;
              },
            )
      | inl t ↦
          let s1 : Session o hasher = record s { backend_socket = some t.fd; os = t.begun } in
          let rest : Result (Answer × Session o hasher) = (do
            sent ← send_all o hasher (some t.fd) payload s1
            response ← read_backend_response o hasher (2 ^ 63) [] sent.1
            ok (answer_of response.0, response.1)) in
          equals o hasher _ rest (ground (arith, t.made)) (λ a s' p. p)
            (bind o hasher _ _ (send_all-Ends o hasher t.fd payload s1) (λ whole s2 (kept, sent).
              bind o hasher _ _
                (read_backend_response-Ends o hasher (2 ^ 63) t.fd [] s2 kept.socket_eq
                  (omega arith) (omega arith))
                (λ result s3 (kept3, (bytes, received, says)).
                  returning o hasher _ (answer_of result) s3 refl (
                    talked (record {
                      fd = t.fd;
                      not_client = t.not_client;
                      dialling = t.dialling;
                      begun = t.begun;
                      asked = s2.os;
                      connected = t.connected;
                      silent = t.silent;
                      sent = sent;
                      bytes = bytes;
                      received = received;
                      says = says;
                    }),
                    record {
                      router_eq = kept3.router_eq ∙ kept.router_eq;
                      open_client = kept3.still_open c (kept.still_open c t.open_client);
                      apart = λ p. t.not_client (cc (p, kept3.socket_eq, kept.socket_eq));
                      free = λ p. absurd (answer_of_lem result p);
                    },
                  ))))
    ]

    -- The connection is closed.
    pub close_backend_lem :
        (a : Answer) (s s1 : Session o hasher)
        → Behind c a s s1
        → Ready o hasher c (close_backend o hasher s1)
          × ((close_backend o hasher s1).router ≡ s.router)
          × Silent s1.os (close_backend o hasher s1).os
    unfolding close_backend
    close_backend_lem a s s1 h = elim (Option-cases s1.backend_socket) [
      | inl closed ↦ (
        record {
          open_client = ground (arith, closed, h.open_client);
          closed = ground (arith, closed);
        },
        ground (arith, closed, h.router_eq),
        λ q. ground (arith, closed),
      )
      | inr (fd, connected) ↦
          let other : c ≢ fd = λ p. h.apart (connected ∙ ap some (sym p)) in
          let still = o.close_law c fd s1.os other h.open_client in
          (
            record {
              open_client = ground (arith, connected, still);
              closed = ground (arith, connected);
            },
            ground (arith, connected, h.router_eq),
            λ q. ground (arith, connected, o.close-traffic q fd s1.os),
          )
    ]
