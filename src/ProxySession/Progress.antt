-- ===== src/ProxySession/Progress.antt =====
-- How a part of a session ends, and what it sends: it returns, or the system or the memory stops it.
use load_tester_project.Base.{
  ℕ, zero, suc, ◌≤◌, ◌^◌, true, false, [], ◌∷◌, ◌++◌, append_assoc, append-nil, none, some, Bytes,
  ◌≡◌, ◌≢◌, ◌⊎◌, inl, inr, refl, sym, ap, ◌∙◌, arith, length, drop, take, take-append-drop,
  length-drop,
}
use load_tester_project.Base.Result.{
  Result, ok, throw, Exception, blocked, killed, length_error, ◌>>=◌,
}
use load_tester_project.Router.Reach.{Reach, here, Reach-trans}
use load_tester_project.Sockets.{Sockets, Sent, takes, stuck, broken_pipe, waits_forever}
use load_tester_project.ProxySession.{Session, send_rest, send_all}

pub Sent-cases :
    (r : Sent)
    → ((r ≡ takes 0) ⊎ ((n : ℕ) × (r ≡ takes (suc n)))) ⊎ ((r ≡ stuck) ⊎ (r ≡ broken_pipe))
Sent-cases (takes zero) = inl (inl refl)
Sent-cases (takes (suc n)) = inl (inr (n, refl))
Sent-cases stuck = inr (inl refl)
Sent-cases broken_pipe = inr (inr refl)

module _ (o : Sockets) (hasher : Bytes → ℕ) where
  -- What stops a session: a call of the system that never returns, SIGPIPE, or a text that is too
  -- long for a string.
  pub data IsStop : Exception → Type 0 where
    silent_peer : (fd : ℕ) (os : o.Os) → (o.recv fd os).0 ≡ waits_forever → IsStop blocked
    full_peer :
        (fd : ℕ) (bytes : Bytes) (os : o.Os) → (o.send fd bytes os).0 ≡ stuck → IsStop blocked
    closed_peer :
        (fd : ℕ) (bytes : Bytes) (os : o.Os) → (o.send fd bytes os).0 ≡ broken_pipe → IsStop killed
    long_text : (text : Bytes) → 2 ^ 63 ≤ length text → IsStop length_error

  pub record Stops {A : Type 0} (outcome : Result A) : Type 0 where
    pub why : Exception
    pub threw : outcome ≡ throw why
    pub cause : IsStop why

  pub record Returns {A : Type 0} (outcome : Result (A × Session o hasher))
      (Post : A → Session o hasher → Type 0) : Type 0 where
    pub value : A
    pub after : Session o hasher
    pub returned : outcome ≡ ok (value, after)
    pub post : Post value after

  -- A part of a session returns as described, or is stopped.
  abbrev pub Ends :
      {A : Type 0} → Result (A × Session o hasher) → (A → Session o hasher → Type 0) → Type 0
  Ends outcome Post = Returns outcome Post ⊎ Stops outcome

  pub returning :
      {A : Type 0} {Post : A → Session o hasher → Type 0} (m : Result (A × Session o hasher))
      (a : A) (s : Session o hasher)
      → m ≡ ok (a, s)
      → Post a s
      → Ends m Post
  returning m a s e p = inl (record { value = a; after = s; returned = e; post = p })

  pub stopping :
      {A : Type 0} {Post : A → Session o hasher → Type 0} (m : Result (A × Session o hasher))
      (why : Exception)
      → m ≡ throw why
      → IsStop why
      → Ends m Post
  stopping m why e i = inr (record { why = why; threw = e; cause = i })

  -- The same outcome in other words, with a description that follows.
  pub equals :
      {A : Type 0} {Post Post' : A → Session o hasher → Type 0}
      (m m' : Result (A × Session o hasher))
      → m ≡ m'
      → ((a : A) (s : Session o hasher) → Post' a s → Post a s)
      → Ends m' Post'
      → Ends m Post
  equals m m' p f (inl e) = inl (record {
    value = e.value;
    after = e.after;
    returned = p ∙ e.returned;
    post = f e.value e.after e.post;
  })
  equals m m' p f (inr x) = inr (record { why = x.why; threw = p ∙ x.threw; cause = x.cause })

  pub bind :
      {A B : Type 0} {Post : A → Session o hasher → Type 0} {Post' : B → Session o hasher → Type 0}
      (m : Result (A × Session o hasher)) (f : A × Session o hasher → Result (B × Session o hasher))
      → Ends m Post
      → ((a : A) (s : Session o hasher) → Post a s → Ends (f (a, s)) Post')
      → Ends (m >>= f) Post'
  bind m f (inl e) k = rw e.returned (k e.value e.after e.post)
  bind m f (inr x) k = inr (record { why = x.why; threw = rw x.threw refl; cause = x.cause })

  -- Only the system has moved on, and open descriptors are open still.
  pub record Kept (s s' : Session o hasher) : Type 0 where
    pub router_eq : s'.router ≡ s.router
    pub socket_eq : s'.backend_socket ≡ s.backend_socket
    pub still_open : (c : ℕ) → o.is_open c s.os ≡ true → o.is_open c s'.os ≡ true

  pub Kept-refl : (s : Session o hasher) → Kept s s
  Kept-refl s = record { router_eq = refl; socket_eq = refl; still_open = λ c h. h }

  pub Kept-trans : (s t u : Session o hasher) → Kept s t → Kept t u → Kept s u
  Kept-trans s t u p q = record {
    router_eq = q.router_eq ∙ p.router_eq;
    socket_eq = q.socket_eq ∙ p.socket_eq;
    still_open = λ c h. q.still_open c (p.still_open c h);
  }

  -- The system has taken the bytes on a descriptor, all of them or those before a call of `send`
  -- that failed, and on no other.
  pub record Delivers (fd : ℕ) (bytes : Bytes) (os os' : o.Os) : Type 0 where
    pub part : Bytes
    pub rest : Bytes
    pub parts : part ++ rest ≡ bytes
    pub taken : o.traffic fd os' ≡ ((o.traffic fd os).0 ++ part, (o.traffic fd os).1)
    pub cut : (rest ≡ []) ⊎ ((at : o.Os) × ((o.send fd rest at).0 ≡ takes 0))
    pub others : (c : ℕ) → c ≢ fd → o.traffic c os' ≡ o.traffic c os

  all_taken : (fd : ℕ) (os : o.Os) → Delivers fd [] os os
  all_taken fd os = record {
    part = [];
    rest = [];
    parts = refl;
    taken = ap (λ t. (t, (o.traffic fd os).1)) (sym (append-nil (o.traffic fd os).0));
    cut = inl refl;
    others = λ c ne. refl;
  }

  send_rest-Ends :
      (fuel fd : ℕ) (bytes : Bytes) (s : Session o hasher)
      → length bytes ≤ fuel
      → Ends
          (send_rest o hasher fuel fd bytes s)
          (λ whole s'. Kept s s' × Delivers fd bytes s.os s'.os)
  unfolding send_rest
  send_rest-Ends fuel fd [] s h = returning _ true s refl (Kept-refl s, all_taken fd s.os)
  send_rest-Ends zero fd (x ∷ bytes) s h = absurd (omega arith)
  send_rest-Ends (suc fuel) fd (x ∷ bytes) s h =
      let sent = o.send fd (x ∷ bytes) s.os in
      let s1 : Session o hasher = record s { os = sent.1 } in
      let kept : Kept s s1 = record {
        router_eq = refl;
        socket_eq = refl;
        still_open = λ c p. o.send_law c fd (x ∷ bytes) s.os p;
      } in
      elim (Sent-cases sent.0) [
        | inl (inl e) ↦ returning _ false s1 (ground (arith, e)) (
          kept,
          record {
            part = [];
            rest = x ∷ bytes;
            parts = refl;
            taken = o.send_takes fd (x ∷ bytes) 0 s.os e;
            cut = inr (s.os, e);
            others = λ c ne. o.send_other c fd (x ∷ bytes) s.os ne;
          },
        )
        | inl (inr (n, e)) ↦
            equals _ (send_rest o hasher fuel fd (drop (suc n) (x ∷ bytes)) s1) (ground (arith, e))
              (λ whole s' p.
                (Kept-trans s s1 s' kept p.0, further fd (x ∷ bytes) (suc n) s.os s'.os e p.1))
              (send_rest-Ends fuel fd (drop (suc n) (x ∷ bytes)) s1
                (omega (arith, length-drop n bytes)))
        | inr (inl e) ↦ stopping _ blocked (ground (arith, e)) (full_peer fd (x ∷ bytes) s.os e)
        | inr (inr e) ↦ stopping _ killed (ground (arith, e)) (closed_peer fd (x ∷ bytes) s.os e)
      ]
    where
      further :
          (fd : ℕ) (bytes : Bytes) (n : ℕ) (os os' : o.Os)
          → (o.send fd bytes os).0 ≡ takes n
          → Delivers fd (drop n bytes) (o.send fd bytes os).1 os'
          → Delivers fd bytes os os'
      further fd bytes n os os' e d =
          let first = o.send_takes fd bytes n os e in
          record {
            part = take n bytes ++ d.part;
            rest = d.rest;
            parts =
                append_assoc (take n bytes) d.part d.rest
                ∙ ap (λ t. take n bytes ++ t) d.parts
                ∙ take-append-drop n bytes;
            taken =
                d.taken
                ∙ ap (λ t. (t.0 ++ d.part, t.1)) first
                ∙ ap (λ t. (t, (o.traffic fd os).1))
                    (append_assoc (o.traffic fd os).0 (take n bytes) d.part);
            cut = d.cut;
            others = λ c ne. d.others c ne ∙ o.send_other c fd bytes os ne;
          }

  pub send_all-Ends :
      (fd : ℕ) (bytes : Bytes) (s : Session o hasher)
      → Ends
          (send_all o hasher (some fd) bytes s)
          (λ whole s'. Kept s s' × Delivers fd bytes s.os s'.os)
  unfolding send_all
  send_all-Ends fd bytes s = send_rest-Ends (length bytes) fd bytes s (omega arith)

  module _ (c : ℕ) where
    -- Between two requests, and between two backends: the client's connection is open and no
    -- backend's.
    pub record Ready (s : Session o hasher) : Type 0 where
      pub open_client : o.is_open c s.os ≡ true
      pub closed : s.backend_socket ≡ none

    -- A part of a session calls the router by steps of its state machine.
    pub record Goes (s s' : Session o hasher) : Type 0 where
      pub ready : Ready s'
      pub reached : Reach hasher s.router s'.router

    pub stays : (s : Session o hasher) → Ready s → Goes s s
    stays s r = record { ready = r; reached = here }

    pub Goes-trans : (s t u : Session o hasher) → Goes s t → Goes t u → Goes s u
    Goes-trans s t u p q = record { ready = q.ready; reached = Reach-trans p.reached q.reached }
