-- ===== src/LoadBalancer.antt =====
-- load_balancer/src/LoadBalancer.cpp and load_balancer/src/main.cpp: the listening socket, the
-- router and the threads that the load balancer starts. The messages on the console are left out.
pub mod Rounds
use load_tester_project.Base.{
  ℕ, zero, suc, Bool, true, false, List, [], ◌∷◌, Option, none, some, Bytes, codes, if◌then◌else◌,
}
use load_tester_project.Base.Decimal.{ℤ, pos}
use load_tester_project.Base.Result.{Result}
use load_tester_project.Backend.{Backend, up}
use load_tester_project.Router.{Router}
use load_tester_project.Router as Router
use load_tester_project.HealthChecker.{Checker, new_checker}
use load_tester_project.HealthChecker as HealthChecker
use load_tester_project.Sockets.{Sockets}
use load_tester_project.ProxySession.{sin_port}

-- The calls of a server on its listening socket, beside those of `Sockets`; `false` and `none` are
-- results below 0.
pub record Listener : Type 1 where
  pub sockets : Sockets
  pub set_reuse : ℕ → sockets.Os → sockets.Os
  pub bind : ℕ → ℕ → sockets.Os → Bool × sockets.Os
  pub listen : ℕ → ℕ → sockets.Os → Bool × sockets.Os
  pub accept : ℕ → sockets.Os → Option ℕ × sockets.Os

-- A call goes on with a value, or the process ends by `exit(EXIT_FAILURE)`, which closes its
-- descriptors too.
pub data Startup (A : Type 0) : Type 0 where
  runs : A → Startup A
  exits : Startup A

infixl 5 ◌>>=◌
abbrev pub ◌>>=◌ : {A B : Type 0} → Startup A → (A → Startup B) → Startup B
runs a >>= f = f a
exits >>= f = exits

-- `backends` of `acceptClients`
unfoldable pub initial_backends : List Backend
initial_backends =
    record { ip = codes "127.0.0.1"; port = pos 9001; status = up }
    ∷ record { ip = codes "127.0.0.1"; port = pos 9002; status = up }
    ∷ record { ip = codes "127.0.0.1"; port = pos 9003; status = up }
    ∷ []

-- The default of `vnodes_per_backend` in Router.h.
abbrev pub vnodes_per_backend : ℕ
vnodes_per_backend = 50

-- `Router router(backends)`
unfoldable pub initial_router : (Bytes → ℕ) → Result Router
unfolding initial_backends
initial_router hasher = Router.init hasher initial_backends vnodes_per_backend

module _ (o : Listener) where
  -- `LoadBalancer::createSocket`
  unfoldable pub create_socket : o.sockets.Os → Startup (ℕ × o.sockets.Os)
  create_socket os =
      let (made, os') = o.sockets.socket os in elim made [ none ↦ exits | some fd ↦ runs (fd, os') ]

  -- `LoadBalancer::bindSocket`
  unfoldable pub bind_socket : ℤ → ℕ → o.sockets.Os → Startup o.sockets.Os
  unfolding sin_port
  bind_socket port fd os =
      let (bound, os') = o.bind fd (sin_port port) (o.set_reuse fd os) in
      if bound then runs os' else exits

  -- `LoadBalancer::listenSocket`
  unfoldable pub listen_socket : ℕ → o.sockets.Os → Startup o.sockets.Os
  listen_socket fd os = let (listens, os') = o.listen fd 3 os in if listens then runs os' else exits

  -- The loop of `acceptClients`, for a number of rounds: the clients for which a thread is started.
  unfoldable pub accept_loop : ℕ → ℕ → o.sockets.Os → List ℕ × o.sockets.Os
  accept_loop zero fd os = ([], os)
  accept_loop (suc rounds) fd os =
      let (accepted, os1) = o.accept fd os in
      let (clients, os2) = accept_loop rounds fd os1 in
      (elim accepted [ none ↦ clients | some client ↦ client ∷ clients ], os2)

  -- What the process has made after some rounds of the loop.
  pub record Running : Type 0 where
    pub router : Result Router
    pub checker : Option Checker
    pub clients : List ℕ
    pub os : o.sockets.Os

  -- `LoadBalancer::acceptClients`
  unfoldable pub accept_clients : (Bytes → ℕ) → ℕ → ℕ → o.sockets.Os → Running
  unfolding initial_router accept_loop
  accept_clients hasher rounds fd os =
      let (clients, os') = accept_loop rounds fd os in
      record {
        router = initial_router hasher;
        checker = HealthChecker.start new_checker;
        clients = clients;
        os = os';
      }

  -- `LoadBalancer::start`
  unfoldable pub start : (Bytes → ℕ) → ℤ → ℕ → o.sockets.Os → Startup Running
  unfolding create_socket bind_socket listen_socket accept_clients
  start hasher port rounds os = do
    made ← create_socket os
    bound ← bind_socket port made.0 made.1
    listening ← listen_socket made.0 bound
    runs (accept_clients hasher rounds made.0 listening)

  -- `main`
  unfoldable pub main : (Bytes → ℕ) → ℕ → o.sockets.Os → Startup Running
  unfolding start
  main hasher rounds os = start hasher (pos 8080) rounds os
