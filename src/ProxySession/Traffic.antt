-- ===== src/ProxySession/Traffic.antt =====
-- How a session ends: its client stops sending or a request cannot be served, the router has no
-- backend left, or the system stops it.
use load_tester_project.Base.{ℕ, Bytes, ◌≡◌, ◌⊎◌}
use load_tester_project.Base.Result.{Result, ok, throw, still_running}
use load_tester_project.Router.{Router}
use load_tester_project.Router.Reach.{Reach}
use load_tester_project.Sockets.{Sockets}
use load_tester_project.ProxySession.{Session}
use load_tester_project.ProxySession.Progress.{Stops}
use load_tester_project.ProxySession.Requests.{Fails}

module _ (o : Sockets) (hasher : Bytes → ℕ) (c : ℕ) where
  -- The session has ended in a state that it can reach.
  pub record IsOver (s : Session o hasher) (outcome : Result (Session o hasher)) : Type 0 where
    pub after : Session o hasher
    pub returned : outcome ≡ ok after
    pub reached : Reach hasher s.router after.router

  -- How a session fares.
  abbrev pub Fares : Session o hasher → Result (Session o hasher) → Type 0
  Fares s outcome =
      (IsOver s outcome ⊎ Fails o hasher c s outcome)
      ⊎ (Stops o hasher outcome ⊎ (outcome ≡ throw still_running))
