-- ===== src/HealthChecker/Loop.antt =====
-- The loop of the health checker: its rounds leave every backend with the status of its pings.
use load_tester_project.Base.{
  ℕ, zero, suc, ◌<◌, Bool, true, false, List, [], ◌∷◌, some, Bytes, ◌≡◌, refl, sym, ap, ◌∙◌, arith,
  All, All-map, map, inl, inr, Bool-cases,
}
use mathlib.Core.Path.{subst}
use load_tester_project.Base.Decimal.{ℤ, int_eq, int_eq_iff}
use load_tester_project.Base.Result.{ok}
use load_tester_project.Base.UnorderedMap.{find, int_keys, keys}
use load_tester_project.Backend.{Backend, BackendStatus, up, recovering, down}
use load_tester_project.Clients.{Clients}
use load_tester_project.Router.{Router, get_all_backends}
use load_tester_project.Router.Reach.{Reach, here, Reach-trans, Reach-IsValid}
use load_tester_project.Router.Validity.{IsValid}
use load_tester_project.HealthChecker.{ping_backend, round, run}
use load_tester_project.HealthChecker.Moves.{verdict}
use load_tester_project.HealthChecker.Rounds.{judged, IsDistinct, check_backends-Judges}

-- No key comes twice.
abbrev pub IsApart : List ℤ → Type 0
IsApart [] = Unit {0}
IsApart (k ∷ ks) = All (λ j. int_eq j k ≡ false) ks × IsApart ks

abbrev IsKeyed : List (ℤ × Backend) → Type 0
IsKeyed m = All (λ e. e.1.port ≡ e.0) m

backends-IsDistinct :
    (m : List (ℤ × Backend)) → IsApart (keys m) → IsKeyed m → IsDistinct (map (λ e. e.1) m)
backends-IsDistinct [] a k = tt
backends-IsDistinct ((p, b) ∷ m) a k = (others m a.0 k.1, backends-IsDistinct m a.1 k.1)
  where
    others :
        (xs : List (ℤ × Backend))
        → All (λ j. int_eq j p ≡ false) (keys xs)
        → IsKeyed xs
        → All (λ x. int_eq x.port b.port ≡ false) (map (λ e. e.1) xs)
    others [] h l = tt
    others ((q, x) ∷ xs) h l = (rw (k.0, l.0) (h.0), others xs h.1 l.1)

module _ (whole : List (ℤ × Backend)) where
  -- Each entry of `m` is found in the whole map.
  abbrev AreIn : List (ℤ × Backend) → Type 0
  AreIn m = All (λ e. find e.0 whole ≡ some e.1) m

entries_found : (m : List (ℤ × Backend)) → IsApart (keys m) → AreIn m m
unfolding find
entries_found [] a = tt
entries_found ((p, b) ∷ m) a =
    (rw ((int_eq_iff p p).1 refl) refl, later m a.0 (entries_found m a.1))
  where
    later :
        (xs : List (ℤ × Backend))
        → All (λ j. int_eq j p ≡ false) (keys xs)
        → AreIn m xs
        → AreIn ((p, b) ∷ m) xs
    later [] h f = tt
    later ((q, x) ∷ xs) h f = (rw (h.0) (f.0), later xs h.1 f.1)

ports_found :
    (m xs : List (ℤ × Backend))
    → AreIn m xs
    → IsKeyed xs
    → All (λ b. find b.port m ≡ some b) (map (λ e. e.1) xs)
ports_found m [] f k = tt
ports_found m ((p, b) ∷ xs) f k = (ap (λ q. find q m) k.0 ∙ f.0, ports_found m xs f.1 k.1)

-- Each entry of a valid router is under its own port.
entries-IsKeyed :
    {hasher : Bytes → ℕ} (r : Router)
    → IsValid hasher r
    → IsApart (keys r.backends)
    → IsKeyed r.backends
entries-IsKeyed r v a =
    All-map _ _ (λ e f. v.keyed e.0 e.1 f) r.backends (entries_found r.backends a)

verdict-idempotent :
    (alive : Bool) (s : BackendStatus) → verdict alive (verdict alive s) ≡ verdict alive s
verdict-idempotent false s = refl
verdict-idempotent true up = refl
verdict-idempotent true recovering = refl
verdict-idempotent true down = refl

-- Tests of `running_` that find it set `rounds` times, and then not.
unfoldable pub set_for : ℕ → List Bool
set_for zero = false ∷ []
set_for (suc rounds) = true ∷ set_for rounds

status_after : ℕ → Bool → BackendStatus → BackendStatus
status_after zero alive s = s
status_after (suc rounds) alive s = status_after rounds alive (verdict alive s)

status_after-suc :
    (rounds : ℕ) (alive : Bool) (s : BackendStatus)
    → status_after (suc rounds) alive s ≡ verdict alive s
unfolding status_after
status_after-suc zero alive s = refl
status_after-suc (suc rounds) alive s =
    status_after-suc rounds alive (verdict alive s) ∙ verdict-idempotent alive s

-- What holds of all the values of a map holds of one that is found in it.
found-All :
    (P : Backend → Type 0) (m : List (ℤ × Backend)) (q : ℤ) (b : Backend)
    → All P (map (λ e. e.1) m)
    → find q m ≡ some b
    → P b
unfolding find
found-All P [] q b a h = absurd (cc h)
found-All P ((p, x) ∷ m) q b a h = elim (Bool-cases (int_eq q p)) [
  | inl hit ↦ let same : x ≡ b = ground (arith, hit, h) in subst P same a.0
  | inr miss ↦ found-All P m q b a.1 (ground (arith, miss, h))
]

module _ (hasher : Bytes → ℕ) (c : Clients) (health : ℤ → Bool)
    (steady : (b : Backend) (n : c.Net) → (ping_backend c hasher b n).0 ≡ health b.port) where
  -- What a loop of some rounds leaves of the router.
  record Leaves (rounds : ℕ) (r r' : Router) : Type 0 where
    walked : Reach hasher r r'
    settled :
        (q : ℤ) (b : Backend)
        → find q r.backends ≡ some b
        → find q r'.backends ≡ some (record b { status = status_after rounds (health q) b.status })

  run_rounds :
      (rounds : ℕ) (r : Router) (n : c.Net)
      → 0 < r.hash_ring.num_vnodes
      → IsValid hasher r
      → IsApart (keys r.backends)
      → (r' : Router) × (n' : c.Net) × (run c hasher (set_for rounds) r n ≡ ok (r', n'))
        × Leaves rounds r r'
  unfolding run set_for round get_all_backends status_after
  run_rounds zero r n p v a = (r, n, refl, record { walked = here; settled = λ q b f. f })
  run_rounds (suc rounds) r n p v a =
      let k = entries-IsKeyed r v a in
      let (s, n1, e, j) =
        check_backends-Judges hasher c (λ b. health b.port) steady (get_all_backends r) r n p
          (backends-IsDistinct r.backends a k)
          (ports_found r.backends r.backends (entries_found r.backends a) k) in
      let (r', n', e', l) =
        run_rounds rounds s n1 (rw (j.vnodes) p) (Reach-IsValid v j.walked)
          (subst IsApart (sym j.ports) a) in
      (
        r',
        n',
        ground (arith, e, e'),
        record {
          walked = Reach-trans j.walked l.walked;
          settled = λ q b f.
              let port = v.keyed q b f in
              let judged_now = found-All _ r.backends q b j.settled f in
              l.settled q _ (
                subst
                  (λ x.
                    find x s.backends ≡ some (record b { status = verdict (health x) b.status }))
                  port judged_now);
        },
      )

  -- A loop of one round or more leaves a router with the statuses that the pings ask for.
  pub run-judged :
      (rounds : ℕ) (r : Router) (n : c.Net)
      → 0 < r.hash_ring.num_vnodes
      → IsValid hasher r
      → IsApart (keys r.backends)
      → (r' : Router) × (n' : c.Net) × (run c hasher (set_for (suc rounds)) r n ≡ ok (r', n'))
        × Reach hasher r r'
        × ((q : ℤ) (b : Backend)
            → find q r.backends ≡ some b
            → find q r'.backends ≡ some (judged (λ x. health x.port) b))
  run-judged rounds r n p v a =
      let (r', n', e, l) = run_rounds (suc rounds) r n p v a in
      (
        r',
        n',
        e,
        l.walked,
        λ q b f.
            let port = v.keyed q b f in
            l.settled q b f
            ∙ ap (λ s. some (record b { status = s })) (status_after-suc rounds (health q) b.status)
            ∙ ap (λ x. some (record b { status = verdict (health x) b.status })) (sym port),
      )
