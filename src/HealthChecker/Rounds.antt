-- ===== src/HealthChecker/Rounds.antt =====
-- A round of the health checker: it ends, takes the steps of the router's state machine, and leaves
-- every backend with the status that the answer to its ping asks for.
use load_tester_project.Base.{
  ℕ, ◌<◌, Bool, false, List, [], ◌∷◌, some, Bytes, ◌≡◌, refl, ap, ◌∙◌, arith, All,
}
use load_tester_project.Base.Decimal.{ℤ, int_eq, int_eq_iff}
use load_tester_project.Base.Result.{ok}
use load_tester_project.Base.UnorderedMap.{find, int_keys, keys}
use load_tester_project.Backend.{Backend}
use load_tester_project.Clients.{Clients}
use load_tester_project.Router.{Router, get_all_backends}
use load_tester_project.Router.Reach.{Reach, here}
use load_tester_project.HealthChecker.{ping_backend, check_backends, round}
use load_tester_project.Router.Reach.{Reach-trans}
use load_tester_project.HealthChecker.Moves.{verdict, Moves, judge-Moves}

abbrev pub judged : (Backend → Bool) → Backend → Backend
judged health b = record b { status = verdict (health b) b.status }

-- No port comes twice.
abbrev pub IsDistinct : List Backend → Type 0
IsDistinct [] = Unit {0}
IsDistinct (b ∷ bs) = All (λ x. int_eq x.port b.port ≡ false) bs × IsDistinct bs

module _ (hasher : Bytes → ℕ) (c : Clients) where
  module _ (health : Backend → Bool)
      (steady : (b : Backend) (n : c.Net) → (ping_backend c hasher b n).0 ≡ health b) where
    -- What the loop over `bs` has done to the router.
    pub record Judges (bs : List Backend) (r r' : Router) : Type 0 where
      pub walked : Reach hasher r r'
      pub vnodes : r'.hash_ring.num_vnodes ≡ r.hash_ring.num_vnodes
      pub ports : keys r'.backends ≡ keys r.backends
      pub settled : All (λ b. find b.port r'.backends ≡ some (judged health b)) bs
      pub others :
          (q : ℤ) → All (λ b. int_eq q b.port ≡ false) bs → find q r'.backends ≡ find q r.backends

    -- Entries of other ports are still there after one backend was judged.
    still_found :
        (b b' : Backend) (r r' : Router) (bs : List Backend)
        → Moves hasher r b b' r'
        → All (λ x. int_eq x.port b.port ≡ false) bs
        → All (λ x. find x.port r.backends ≡ some x) bs
        → All (λ x. find x.port r'.backends ≡ some x) bs
    still_found b b' r r' [] m a f = tt
    still_found b b' r r' (x ∷ bs) m a f =
        (m.entries x.port ∙ rw (a.0) (f.0), still_found b b' r r' bs m a.1 f.1)

    other_ports :
        (b : Backend) (bs : List Backend)
        → All (λ x. int_eq x.port b.port ≡ false) bs
        → All (λ x. int_eq b.port x.port ≡ false) bs
    other_ports b [] a = tt
    other_ports b (x ∷ bs) a = (
      ground (arith, int_eq_iff x.port b.port, int_eq_iff b.port x.port, a.0),
      other_ports b bs a.1,
    )

    pub check_backends-Judges :
        (bs : List Backend) (r : Router) (n : c.Net)
        → 0 < r.hash_ring.num_vnodes
        → IsDistinct bs
        → All (λ b. find b.port r.backends ≡ some b) bs
        → (r' : Router) × (n' : c.Net) × (check_backends c hasher bs r n ≡ ok (r', n'))
          × Judges bs r r'
    unfolding check_backends
    check_backends-Judges [] r n p d f = (
      r,
      n,
      refl,
      record { walked = here; vnodes = refl; ports = refl; settled = tt; others = λ q a. refl },
    )
    check_backends-Judges (b ∷ bs) r n p d f =
        let answer = ping_backend c hasher b n in
        let (s, n1, e, m) = judge-Moves hasher c answer.0 b r answer.1 p f.0 in
        let (r', n', e', j) =
          check_backends-Judges bs s n1 (rw m.vnodes p) d.1 (still_found b _ r s bs m d.0 f.1) in
        let here_now : find b.port r'.backends ≡ some (judged health b) =
          j.others b.port (other_ports b bs d.0)
          ∙ m.entries b.port
          ∙ rw ((int_eq_iff b.port b.port).1 refl)
              (ap (λ h. some (record b { status = verdict h b.status })) (steady b n)) in
        (
          r',
          n',
          ground (arith, e, e'),
          record {
            walked = Reach-trans m.reached j.walked;
            vnodes = j.vnodes ∙ m.vnodes;
            ports = j.ports ∙ m.ports;
            settled = (here_now, j.settled);
            others = λ q a. j.others q a.1 ∙ m.entries q ∙ rw (a.0) refl;
          },
        )

    -- On a router with virtual nodes, whose map has each backend under its own port and no port
    -- twice, a round ends if no answer to a ping changes within it. Its calls of the router are
    -- steps of the state machine. Afterwards each backend is DOWN if it did not answer its ping,
    -- UP if it answered and was UP or DOWN, and still RECOVERING if it answered and was that.
    pub round-judged :
        (r : Router) (n : c.Net)
        → 0 < r.hash_ring.num_vnodes
        → IsDistinct (get_all_backends r)
        → All (λ b. find b.port r.backends ≡ some b) (get_all_backends r)
        → (r' : Router) × (n' : c.Net) × (round c hasher r n ≡ ok (r', n'))
          × Reach hasher r r'
          × All (λ b. find b.port r'.backends ≡ some (judged health b)) (get_all_backends r)
    unfolding round
    round-judged r n p d f =
        let (r', n', e, j) = check_backends-Judges (get_all_backends r) r n p d f in
        (r', n', e, j.walked, j.settled)
