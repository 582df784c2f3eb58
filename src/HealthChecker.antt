-- ===== src/HealthChecker.antt =====
-- load_balancer/src/HealthChecker.cpp: the loop that pings every backend and moves it between DOWN,
-- RECOVERING and UP. The pauses are left out, and calls of other threads within a round are not in the
-- model.
pub mod Moves
pub mod Rounds
pub mod Loop
pub mod Life
use load_tester_project.Base.{
  ℕ, Bool, true, false, ◌||◌, List, [], ◌∷◌, Option, none, some, Bytes, codes, ◌==◌, if◌then◌else◌,
}
use load_tester_project.Base.Result.{Result, ok, throw, out_of_fuel, ◌>>=◌}
use load_tester_project.Backend.{Backend, BackendStatus, up, recovering, down}
use load_tester_project.Clients.{Clients, Reply}
use load_tester_project.RecoveryManager.{recover}
use load_tester_project.Router.{
  Router, is_up, is_recovering, get_all_backends, mark_backend_recovering, mark_backend_up,
  mark_backend_down,
}

-- `backend.status == BackendStatus::DOWN`
unfoldable pub is_down : Backend → Bool
is_down b = elim b.status [ down ↦ true | _ ↦ false ]

-- `res && res->status == 200`
unfoldable pub is_healthy : Option Reply → Bool
is_healthy none = false
is_healthy (some r) = r.status == 200

module _ (c : Clients) (hasher : Bytes → ℕ) where
  -- `HealthChecker::pingBackend`
  unfoldable pub ping_backend : Backend → c.Net → Bool × c.Net
  unfolding is_healthy
  ping_backend b net = let (res, net') = c.get b (codes "/health") net in (is_healthy res, net')

  -- What the loop of `run` does with a backend, given the answer to the ping.
  unfoldable pub judge : Bool → Backend → Router → c.Net → Result (Router × c.Net)
  unfolding is_down is_up is_recovering
  judge true b r net =
      if is_down b
      then (let joined = mark_backend_recovering hasher b.port r in
          do net' ← recover c hasher b joined net; ok (mark_backend_up hasher b.port joined, net'))
      else ok (r, net)
  judge false b r net =
      if is_up b || is_recovering b
      then ok (mark_backend_down hasher b.port r, net)
      else ok (r, net)

  -- The `for` loop of `run`.
  unfoldable pub check_backends : List Backend → Router → c.Net → Result (Router × c.Net)
  unfolding judge
  check_backends [] r net = ok (r, net)
  check_backends (b ∷ bs) r net =
      let (alive, net') = ping_backend b net in
      do s ← judge alive b r net'; check_backends bs s.0 s.1

  -- One turn of the `while` loop of `run`.
  unfoldable pub round : Router → c.Net → Result (Router × c.Net)
  unfolding check_backends
  round r net = check_backends (get_all_backends r) r net

  -- `HealthChecker::run`; the list has what its tests of `running_` read.
  unfoldable pub run : List Bool → Router → c.Net → Result (Router × c.Net)
  unfolding round
  run [] r net = throw out_of_fuel
  run (false ∷ running) r net = ok (r, net)
  run (true ∷ running) r net = do s ← round r net; run running s.0 s.1

-- `running_`, and whether `worker_` is a thread that was not joined.
pub record Checker : Type 0 where
  pub running : Bool
  pub joinable : Bool

-- `HealthChecker::HealthChecker`
abbrev pub new_checker : Checker
new_checker = record { running = false; joinable = false }

-- `HealthChecker::start`; to assign to a thread that was not joined is `std::terminate`, which is `none`.
unfoldable pub start : Checker → Option Checker
start h =
    if h.running
    then some h
    else if h.joinable
    then none
    else some (record { running = true; joinable = true })

-- `HealthChecker::stop`, when the thread has ended if there was one.
unfoldable pub stop : Checker → Checker
stop h = record { running = false; joinable = false }
