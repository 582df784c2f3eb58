-- ===== src/LoadBalancer/Rounds.antt =====
-- The router that the load balancer starts with, and the rounds of its health checker.
use load_tester_project.Base.{ℕ, Bool, [], some, Bytes, ◌≡◌, refl, arith, All, suc, All-map}
use load_tester_project.Base.Decimal.{ℤ, int_eq}
use load_tester_project.Base.Result.{ok}
use load_tester_project.Base.UnorderedMap.{find, assign, int_keys, keys}
use load_tester_project.Backend.{Backend}
use load_tester_project.Clients.{Clients}
use load_tester_project.HashRing as Ring
use load_tester_project.Router.{Router, register, get_all_backends}
use load_tester_project.Router as Router
use load_tester_project.Router.Validity.{IsValid, IsConsistent, init-IsValid}
use load_tester_project.Router.Reach.{Reach-IsValid}
use load_tester_project.HealthChecker.{ping_backend, run}
use load_tester_project.HealthChecker.Rounds.{judged}
use load_tester_project.HealthChecker.Loop.{IsApart, set_for, run-judged}
use load_tester_project.LoadBalancer.{initial_backends, initial_router, vnodes_per_backend}

module _ (hasher : Bytes → ℕ) where
  first : Router
  first =
      register hasher initial_backends
        (record { hash_ring = Ring.init vnodes_per_backend; backends = [] })

  built : initial_router hasher ≡ ok first
  unfolding initial_router initial_backends first Router.init
  built = refl

  consistent : IsConsistent hasher initial_backends
  unfolding initial_backends
  consistent = (
    (λ e. cc e),
    ((λ e. refl), ((λ e. refl), tt)),
    ((λ e. cc e), ((λ e. refl), tt), ((λ e. cc e), tt, tt)),
  )

  vnodes : first.hash_ring.num_vnodes ≡ vnodes_per_backend
  unfolding first register initial_backends Ring.init Ring.add_node
  vnodes = refl

  apart : IsApart (keys first.backends)
  unfolding first register initial_backends assign int_eq
  apart = ((refl, (refl, tt)), ((refl, tt), (tt, tt)))

  first-IsValid : IsValid hasher first
  unfolding Router.init initial_router first
  first-IsValid = init-IsValid hasher initial_backends vnodes_per_backend consistent built

  found : All (λ b. find b.port first.backends ≡ some b) initial_backends
  unfolding first register initial_backends assign int_eq find
  found = (refl, (refl, (refl, tt)))

  -- The router of the load balancer is built from its three backends whatever the hash function.
  -- If no backend changes its answer to a ping, and the health checker is stopped after one
  -- round or more, then its loop ends in a valid router where each of the three is UP if it
  -- answers its pings and DOWN if not.
  pub initial_router-judged :
      (c : Clients) (health : ℤ → Bool) (rounds : ℕ) (n : c.Net)
      → ((b : Backend) (n' : c.Net) → (ping_backend c hasher b n').0 ≡ health b.port)
      → (r r' : Router) × (n' : c.Net) × (initial_router hasher ≡ ok r)
        × (run c hasher (set_for (suc rounds)) r n ≡ ok (r', n'))
        × IsValid hasher r'
        × All (λ b. find b.port r'.backends ≡ some (judged (λ x. health x.port) b)) initial_backends
  initial_router-judged c health rounds n steady =
      let (r', n', e, reached, settled) =
        run-judged hasher c health steady rounds first n (rw vnodes (omega arith)) first-IsValid
          apart in
      (
        first,
        r',
        n',
        built,
        e,
        Reach-IsValid first-IsValid reached,
        All-map _ _ (λ b f. settled b.port b f) initial_backends found,
      )
