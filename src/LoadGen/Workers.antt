-- ===== src/LoadGen/Workers.antt =====
-- A worker runs for its time, and its counters tally with what it has sent and received.
use load_tester_project.Base.{
  ◌==◌, if◌then◌else◌, ℕ, zero, suc, ◌+◌, ◌-◌, ◌*◌, ◌≤◌, ◌<◌, Bool, true, false, List, [], ◌∷◌,
  Option, none, some, ◌≡◌, ◌⊎◌, inl, inr, refl, arith, ltb, Bool-cases, length, Bytes,
}
use load_tester_project.Base.Result.{Result, ok, throw, still_running}
use load_tester_project.Clients.{Call, get, delete, post, put, Reply}
use load_tester_project.LoadGen.{
  Machine, Stats, no_stats, Workload, Worker, count, choose, is_ok, round, work, worker,
}

-- Every request has succeeded or failed.
abbrev pub IsCounted : Stats → Type 0
IsCounted s = s.total_requests ≡ s.total_success + s.total_fail

-- The replies that count as a success: a key that is created or was there, a value or the word
-- that there is none.
pub data IsSuccess : Call → Option Reply → Type 0 where
  created : {path body : Bytes} {r : Reply} → r.status ≡ 201 → IsSuccess (post path body) (some r)
  exists : {path body : Bytes} {r : Reply} → r.status ≡ 409 → IsSuccess (post path body) (some r)
  found : {path : Bytes} {r : Reply} → r.status ≡ 200 → IsSuccess (get path) (some r)
  missing : {path : Bytes} {r : Reply} → r.status ≡ 404 → IsSuccess (get path) (some r)

-- What comes back for each request, and how many of the replies are successes and how many are not.
pub data Tally : List (Call × Option Reply) → ℕ → ℕ → Type 0 where
  nothing : Tally [] 0 0
  succeeded :
      {c : Call} {r : Option Reply} {l : List (Call × Option Reply)} {good bad : ℕ}
      → IsSuccess c r
      → Tally l good bad
      → Tally ((c, r) ∷ l) (good + 1) bad
  failed :
      {c : Call} {r : Option Reply} {l : List (Call × Option Reply)} {good bad : ℕ}
      → ¬ IsSuccess c r
      → Tally l good bad
      → Tally ((c, r) ∷ l) good (bad + 1)

no_reply : (c : Call) → IsSuccess c none → ⊥
no_reply c s = elim s [ ]

not_delete : (path : Bytes) (r : Reply) → IsSuccess (delete path) (some r) → ⊥
not_delete path r s = elim s [ ]

not_put : (path body : Bytes) (r : Reply) → IsSuccess (put path body) (some r) → ⊥
not_put path body r s = elim s [ ]

is_ok-IsSuccess :
    (c : Call) (r : Option Reply)
    → ((is_ok c r ≡ true) × IsSuccess c r) ⊎ ((is_ok c r ≡ false) × ¬ IsSuccess c r)
unfolding is_ok
is_ok-IsSuccess c none = inr (refl, no_reply c)
is_ok-IsSuccess (get path) (some r) = elim (Bool-cases (r.status == 200)) [
  | inl value ↦ inl (ground (arith, value), found (ground (arith, value)))
  | inr other ↦ elim (Bool-cases (r.status == 404)) [
    | inl gone ↦ inl (ground (arith, gone), missing (ground (arith, gone)))
    | inr neither ↦ inr (ground (arith, other, neither), λ s. neither_get s other neither)
  ]
]
  where
    neither_get :
        {path : Bytes} {r : Reply}
        → IsSuccess (get path) (some r)
        → (r.status == 200) ≡ false
        → (r.status == 404) ≡ false
        → ⊥
    neither_get (found e) a b = ground (arith, e, a)
    neither_get (missing e) a b = ground (arith, e, b)
is_ok-IsSuccess (delete path) (some r) = inr (refl, not_delete path r)
is_ok-IsSuccess (put path body) (some r) = inr (refl, not_put path body r)
is_ok-IsSuccess (post path body) (some r) = elim (Bool-cases (r.status == 201)) [
  | inl made ↦ inl (ground (arith, made), created (ground (arith, made)))
  | inr other ↦ elim (Bool-cases (r.status == 409)) [
    | inl there ↦ inl (ground (arith, there), exists (ground (arith, there)))
    | inr neither ↦ inr (ground (arith, other, neither), λ s. neither_post s other neither)
  ]
]
  where
    neither_post :
        {path body : Bytes} {r : Reply}
        → IsSuccess (post path body) (some r)
        → (r.status == 201) ≡ false
        → (r.status == 409) ≡ false
        → ⊥
    neither_post (created e) a b = ground (arith, e, a)
    neither_post (exists e) a b = ground (arith, e, b)

module _ (m : Machine) where
  -- The rounds of a worker, each begun before the end: the request that is chosen is sent between
  -- two readings of the clock.
  pub data Rounds (type : Workload) (end_time : ℕ)
      : ℕ → ℕ → m.client.Net → List (Call × Option Reply) → m.client.Net → Type 0 where
    over : {counter g : ℕ} {n : m.client.Net} → Rounds type end_time counter g n [] n
    another :
        {counter g : ℕ} {n n' : m.client.Net} {l : List (Call × Option Reply)}
        → m.time n < end_time
        → Rounds type end_time
            (counter + 1)
            (choose type counter g).1
            (m.read_clock
              (m.client.send (choose type counter g).0 (m.read_clock (m.read_clock n))).1)
            l
            n'
        → Rounds type end_time counter g n
            ((
              (choose type counter g).0,
              (m.client.send (choose type counter g).0 (m.read_clock (m.read_clock n))).0,
            )
              ∷ l)
            n'

  -- What a worker that returns has counted of the rounds it has run: `s` before, `t` behind them.
  pub record Counts (s t : Stats) (rounds good bad : ℕ) : Type 0 where
    pub requests : t.total_requests ≡ s.total_requests + rounds
    pub successes : t.total_success ≡ s.total_success + good
    pub failures : t.total_fail ≡ s.total_fail + bad

  -- A loop that has come to its end, or is still running after all its rounds.
  pub record Ran (t0 fuel end_time : ℕ) (type : Workload) (w : Worker m)
      (outcome : Result (Worker m)) : Type 0 where
    pub exchanges : List (Call × Option Reply)
    pub last : m.client.Net
    pub good : ℕ
    pub bad : ℕ
    pub rounds : Rounds type end_time w.counter w.global_key_counter w.net exchanges last
    pub tally : Tally exchanges good bad
    pub ends :
        ((after : Worker m) × (outcome ≡ ok after)
          × (after.net ≡ m.read_clock last)
          × Counts w.stats after.stats (length exchanges) good bad
          × (after.stats.total_latency_ns + t0 ≤ m.time after.net)
          × (end_time ≤ m.time last)
          × (length exchanges ≤ fuel))
        ⊎ ((outcome ≡ throw still_running) × (length exchanges ≡ fuel))

  Timed : ℕ → Worker m → Type 0
  Timed t0 w = w.stats.total_latency_ns + t0 ≤ m.time w.net

  round-Timed : (t0 : ℕ) (type : Workload) (w : Worker m) → Timed t0 w → Timed t0 (round m type w)
  unfolding round Timed count
  round-Timed t0 type w h =
      let chosen = choose type w.counter w.global_key_counter in
      let sent = m.client.send chosen.0 (m.read_clock w.net) in
      omega
        (arith, h, m.clock_law w.net, m.send_law chosen.0 (m.read_clock w.net), m.clock_law sent.1)

  -- One more round in front.
  Counts-count :
      {s t : Stats} {rounds good bad : ℕ} (latency : ℕ) (success : Bool)
      → Counts (count success latency s) t rounds good bad
      → Counts s t
          (suc rounds)
          (if success then good + 1 else good)
          (if success then bad else bad + 1)
  unfolding count
  Counts-count latency true c = record {
    requests = omega (arith, c.requests);
    successes = omega (arith, c.successes);
    failures = c.failures;
  }
  Counts-count latency false c = record {
    requests = omega (arith, c.requests);
    successes = c.successes;
    failures = omega (arith, c.failures);
  }

  Tally-is_ok :
      {l : List (Call × Option Reply)} {good bad : ℕ} (c : Call) (r : Option Reply)
      → Tally l good bad
      → Tally
          ((c, r) ∷ l)
          (if is_ok c r then good + 1 else good)
          (if is_ok c r then bad else bad + 1)
  Tally-is_ok c r t = elim (is_ok-IsSuccess c r) [
    | inl (e, success) ↦ rw e (succeeded success t)
    | inr (e, failure) ↦ rw e (failed failure t)
  ]

  work-Ran :
      (fuel : ℕ) (type : Workload) (t0 end_time : ℕ) (w : Worker m)
      → Timed t0 w
      → Ran t0 fuel end_time type w (work m fuel type end_time w)
  unfolding work Timed round
  work-Ran zero type t0 end_time w h = record {
    exchanges = [];
    last = w.net;
    good = 0;
    bad = 0;
    rounds = over;
    tally = nothing;
    ends = inr (refl, refl);
  }
  work-Ran (suc fuel) type t0 end_time w h =
      let begun : Worker m = record w { net = m.read_clock w.net } in
      let chosen = choose type w.counter w.global_key_counter in
      let sent = m.client.send chosen.0 (m.read_clock (m.read_clock w.net)) in
      let success = is_ok chosen.0 sent.0 in
      let still : Timed t0 begun = omega (arith, h, m.clock_law w.net) in
      elim (Bool-cases (ltb (m.time w.net) end_time)) [
        | inr late ↦ record {
          exchanges = [];
          last = w.net;
          good = 0;
          bad = 0;
          rounds = over;
          tally = nothing;
          ends = inl (
            begun,
            ground (arith, late),
            refl,
            record { requests = omega arith; successes = omega arith; failures = omega arith },
            still,
            ground (arith, late),
            omega arith,
          );
        }
        | inl early ↦
            let rest =
              work-Ran fuel type t0 end_time (round m type begun)
                (round-Timed t0 type begun still) in
            record {
              exchanges = (chosen.0, sent.0) ∷ rest.exchanges;
              last = rest.last;
              good = if success then rest.good + 1 else rest.good;
              bad = if success then rest.bad else rest.bad + 1;
              rounds = another (ground (arith, early)) (rest.rounds);
              tally = Tally-is_ok chosen.0 sent.0 rest.tally;
              ends = elim rest.ends [
                | inl (after, returned, clock, counts, latency, late, few) ↦ inl (
                  after,
                  ground (arith, early, returned),
                  clock,
                  Counts-count (m.time sent.1 - m.time begun.net) success counts,
                  latency,
                  late,
                  omega (arith, few),
                )
                | inr (running, all) ↦ inr (ground (arith, early, running), omega (arith, all))
              ];
            }
      ]

  -- A worker on its own sends the requests that its workload chooses, one for each round, and
  -- begins no round after its end, on a clock that never goes back. Either it returns after at
  -- most as many rounds as the fuel, with its end reached: it has counted the requests it has
  -- sent, those with a good reply as successes (201 or 409 to a create, 200 or 404 to a read)
  -- and all others as failures, and the latencies it has summed are at most the time since its
  -- start. Or it has run as many rounds as the fuel, each begun before its end, and is still
  -- running.
  pub worker-Ran :
      (fuel duration_sec : ℕ) (type : Workload) (g : ℕ) (net : m.client.Net)
      → Ran
          (m.time net)
          fuel
          (m.time net + duration_sec * 1_000_000_000)
          type
          (record { counter = 0; stats = no_stats; global_key_counter = g; net = m.read_clock net })
          (worker m fuel duration_sec type g net)
  unfolding worker Timed
  worker-Ran fuel duration_sec type g net =
      work-Ran fuel type (m.time net) _
        (record { counter = 0; stats = no_stats; global_key_counter = g; net = m.read_clock net })
        (omega (arith, m.clock_law net))
