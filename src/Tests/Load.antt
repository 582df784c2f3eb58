-- ===== src/Tests/Load.antt =====
-- The load generator.
use load_tester_project.Base.Result.{ok, ◌>>=◌}
use load_tester_project.Base.{some, AllApart, ℕ, ◌+◌, ◌*◌, [], ◌∷◌, ◌≡◌, refl, arith}
use load_tester_project.LoadGen.{
  Machine, Worker, no_stats, work, round, is_ok, count, get_put, worker, choose, create_numbered,
  get_numbered,
}
use load_tester_project.LoadGen.Workers.{Ran, worker-Ran}
use load_tester_project.LoadGen.Keys.{created, interleave, created-AllApart}

-- A server that creates every key, and a clock that takes half a second for a reading.
abbrev machine : Machine
machine = record {
  client = record { Net = ℕ; send = λ call n. (some (record { status = 201; body = [] }), n) };
  time = λ n. n;
  read_clock = λ n. n + 500_000_000;
  clock_law = λ n. omega arith;
  send_law = λ call n. omega arith;
}

abbrev second : Worker machine
second = record {
  counter = 0;
  stats = no_stats;
  global_key_counter = 7;
  net = machine.read_clock 5;
}

worker-Ran_example :
    Ran machine 5 10 (5 + 1 * 1_000_000_000) get_put second (worker machine 10 1 get_put 7 5)
worker-Ran_example = worker-Ran machine 10 1 get_put 7 5

one_request :
    (worker machine 10 1 get_put 7 5 >>= λ w. ok w.stats)
    ≡ ok (record {
      total_requests = 1;
      total_success = 1;
      total_fail = 0;
      total_latency_ns = 500_000_000;
    })
unfolding worker work round choose is_ok count
one_request = refl

created-AllApart_example :
    AllApart (created (interleave get_put (0 ∷ 1 ∷ 0 ∷ 1 ∷ 1 ∷ []) (λ i. 0) 3))
created-AllApart_example = created-AllApart get_put (0 ∷ 1 ∷ 0 ∷ 1 ∷ 1 ∷ []) (λ i. 0) 3

five_rounds :
    interleave get_put (0 ∷ 1 ∷ 0 ∷ 1 ∷ 1 ∷ []) (λ i. 0) 3
    ≡ create_numbered 3
      ∷ create_numbered 4
      ∷ get_numbered 4
      ∷ get_numbered 4
      ∷ create_numbered 5
      ∷ []
unfolding interleave choose
five_rounds = refl
