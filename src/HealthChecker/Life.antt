-- ===== src/HealthChecker/Life.antt =====
-- The thread of the health checker: calls of start and stop one after another.
use load_tester_project.Base.{Bool, true, false, List, [], ◌∷◌, Option, none, some, ◌≡◌, refl}
use load_tester_project.HealthChecker.{Checker, new_checker, start, stop}

data Call : Type 0 where
  starts stops : Call

unfoldable calls : List Call → Checker → Option Checker
calls [] h = some h
calls (starts ∷ cs) h = let begun = start h in elim begun [ none ↦ none | some h' ↦ calls cs h' ]
calls (stops ∷ cs) h = calls cs (stop h)

abbrev state : Bool → Checker
state alive = record { running = alive; joinable = alive }

-- Whether the last call is `start`; `alive` if there is none.
unfoldable last_starts : Bool → List Call → Bool
last_starts alive [] = alive
last_starts alive (starts ∷ cs) = last_starts true cs
last_starts alive (stops ∷ cs) = last_starts false cs

calls_from :
    (alive : Bool) (cs : List Call) → calls cs (state alive) ≡ some (state (last_starts alive cs))
unfolding calls last_starts start stop
calls_from alive [] = refl
calls_from true (starts ∷ cs) = calls_from true cs
calls_from false (starts ∷ cs) = calls_from true cs
calls_from alive (stops ∷ cs) = calls_from false cs

-- No sequence of calls assigns to a thread that was not joined, and the thread is there, with
-- `running_` set, exactly if the last call was `start`.
calls_new : (cs : List Call) → calls cs new_checker ≡ some (state (last_starts false cs))
calls_new cs = calls_from false cs
