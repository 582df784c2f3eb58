-- ===== src/LoadGen/Report.antt =====
-- The report of `main`.
use load_tester_project.Base.{ℕ, ◌+◌, ◌-◌, List, [], ◌∷◌, ◌≡◌, arith, All}
use load_tester_project.LoadGen.{Stats, Totals, sum_stats}
use load_tester_project.LoadGen.Workers.{IsCounted}

pub sum_fail : List Stats → ℕ
sum_fail [] = 0
sum_fail (s ∷ stats) = s.total_fail + sum_fail stats

sum_stats_lem :
    (stats : List Stats) (t : Totals)
    → All IsCounted stats
    → (sum_stats stats t).total_req + t.total_ok
      ≡ (sum_stats stats t).total_ok + t.total_req + sum_fail stats
unfolding sum_stats sum_fail
sum_stats_lem [] t a = omega arith
sum_stats_lem (s ∷ stats) t a = omega (arith, a.0, sum_stats_lem stats _ a.1)

-- The failed requests of the report are the sum of those that the workers have counted, if each
-- worker has counted every request once.
pub failed_lem :
    (stats : List Stats)
    → All IsCounted stats
    → (sum_stats stats (record { total_req = 0; total_ok = 0; total_latency = 0 })).total_req
        - (sum_stats stats (record { total_req = 0; total_ok = 0; total_latency = 0 })).total_ok
      ≡ sum_fail stats
failed_lem stats a =
    omega (arith, sum_stats_lem stats (record { total_req = 0; total_ok = 0; total_latency = 0 }) a)
