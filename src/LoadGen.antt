-- ===== src/LoadGen.antt =====
-- load_gen.cpp: the workers that send requests and count what comes back, and the report on them.
pub mod Workers
pub mod Keys
pub mod Report
use load_tester_project.Base.{
  ℕ, zero, suc, ◌+◌, ◌-◌, ◌*◌, ◌%◌, Bool, true, false, ◌||◌, List, [], ◌∷◌, ◌++◌, Option, none,
  some, Bytes, codes, if◌then◌else◌, str_eq, ◌==◌, ltb, ◌≤◌,
}
use load_tester_project.Base.Decimal.{to_string}
use load_tester_project.Base.Result.{Result, ok, throw, still_running, ◌>>=◌}
use load_tester_project.Base.Streams.{c_str}
use load_tester_project.Clients.{Client, Call, get, delete, post, put, Reply}

-- A client with `std::chrono::steady_clock`, in nanoseconds: `time` is what the next reading gives.
-- The clock never goes back; it may stand still.
pub record Machine : Type 1 where
  pub client : Client
  pub time : client.Net → ℕ
  pub read_clock : client.Net → client.Net
  pub clock_law : (n : client.Net) → time n ≤ time (read_clock n)
  pub send_law : (call : Call) (n : client.Net) → time n ≤ time (client.send call n).1

pub record Stats : Type 0 where
  pub total_requests : ℕ
  pub total_success : ℕ
  pub total_fail : ℕ
  pub total_latency_ns : ℕ

abbrev pub no_stats : Stats
no_stats = record { total_requests = 0; total_success = 0; total_fail = 0; total_latency_ns = 0 }

pub data Workload : Type 0 where
  put_all get_all get_popular get_put : Workload

-- `"popular_" + to_string(i)`
unfoldable pub popular_key : ℕ → Bytes
popular_key i = codes "popular_" ++ to_string i

-- A create request for the key and the value of a number.
unfoldable pub create_numbered : ℕ → Call
create_numbered n =
    post (codes "/kvstore/create")
      ((codes "k_" ++ to_string n) ++ (codes " " ++ (codes "v_" ++ to_string n)))

unfoldable pub get_numbered : ℕ → Call
get_numbered n = get (c_str (codes "/kvstore/" ++ (codes "k_" ++ to_string n)))

-- The request of a round, and `global_key_counter` behind it.
unfoldable pub choose : Workload → ℕ → ℕ → Call × ℕ
unfolding create_numbered get_numbered popular_key
choose put_all counter g = (create_numbered g, g + 1)
choose get_all counter g = (get_numbered g, g + 1)
choose get_popular counter g = (get (c_str (codes "/kvstore/" ++ popular_key (counter % 15))), g)
choose get_put counter g =
    if counter % 2 == 0
    then (create_numbered g, g + 1)
    else (get_numbered (if ltb 0 g then g - 1 else 0), g)

-- `ok`
unfoldable pub is_ok : Call → Option Reply → Bool
is_ok call none = false
is_ok (get path) (some r) = r.status == 200 || r.status == 404
is_ok (delete path) (some r) = false
is_ok (put path body) (some r) = false
is_ok (post path body) (some r) = r.status == 201 || r.status == 409

-- The counters behind a round.
unfoldable pub count : Bool → ℕ → Stats → Stats
count success latency s = record {
  total_requests = s.total_requests + 1;
  total_success = if success then s.total_success + 1 else s.total_success;
  total_fail = if success then s.total_fail else s.total_fail + 1;
  total_latency_ns = s.total_latency_ns + latency;
}

module _ (m : Machine) where
  -- What a worker reads and writes: its own counters, the shared counter of keys, and the system.
  pub record Worker : Type 0 where
    pub counter : ℕ
    pub stats : Stats
    pub global_key_counter : ℕ
    pub net : m.client.Net

  -- The body of the loop.
  unfoldable pub round : Workload → Worker → Worker
  unfolding choose is_ok count
  round type w =
      let start = m.time w.net in
      let (call, g) = choose type w.counter w.global_key_counter in
      let (res, net2) = m.client.send call (m.read_clock w.net) in
      record {
        counter = w.counter + 1;
        stats = count (is_ok call res) (m.time net2 - start) w.stats;
        global_key_counter = g;
        net = m.read_clock net2;
      }

  -- The loop of `worker`, for as many rounds as the fuel; `still_running` when they are over and
  -- the time is not.
  unfoldable pub work : ℕ → Workload → ℕ → Worker → Result Worker
  unfolding round
  work zero type end_time w = throw still_running
  work (suc fuel) type end_time w =
      let begun : Worker = record w { net = m.read_clock w.net } in
      elim (ltb (m.time w.net) end_time) [
        | false ↦ ok begun
        | true ↦ work fuel type end_time (round type begun)
      ]

  -- `worker`, on its own.
  unfoldable pub worker : ℕ → ℕ → Workload → ℕ → m.client.Net → Result Worker
  unfolding work
  worker fuel duration_sec type g net =
      work fuel type (m.time net + duration_sec * 1_000_000_000)
        (record { counter = 0; stats = no_stats; global_key_counter = g; net = m.read_clock net })

  -- The loop of `main` that creates the popular keys: the keys whose creation has failed.
  unfoldable pub add_popular : ℕ → ℕ → m.client.Net → List Bytes × m.client.Net
  unfolding popular_key is_ok
  add_popular zero i net = ([], net)
  add_popular (suc rounds) i net =
      let key = popular_key i in
      let body = key ++ (codes " " ++ (codes "v_" ++ popular_key i)) in
      let (res, net1) = m.client.send (post (codes "/kvstore/create") body) net in
      let (_, net2) = m.client.send (get (c_str (codes "/kvstore/" ++ key))) net1 in
      let (failed, net3) = add_popular rounds (i + 1) net2 in
      (if is_ok (post (codes "/kvstore/create") body) res then failed else key ∷ failed, net3)

-- `workload_str`
unfoldable pub parse_workload : Bytes → Option Workload
parse_workload s =
    if str_eq s (codes "put_all")
    then some put_all
    else if str_eq s (codes "get_all")
    then some get_all
    else if str_eq s (codes "get_popular")
    then some get_popular
    else if str_eq s (codes "get_put")
    then some get_put
    else none

-- The sums over the workers.
pub record Totals : Type 0 where
  pub total_req : ℕ
  pub total_ok : ℕ
  pub total_latency : ℕ

unfoldable pub sum_stats : List Stats → Totals → Totals
sum_stats [] t = t
sum_stats (s ∷ stats) t = sum_stats stats (record {
  total_req = t.total_req + s.total_requests;
  total_ok = t.total_ok + s.total_success;
  total_latency = t.total_latency + s.total_latency_ns;
})

-- How the streams of C++ print the two numbers of type double: `(double)total_ok / duration`, and
-- `(total_latency / total_ok) / 1e6`.
pub record Doubles : Type 0 where
  pub throughput : ℕ → ℕ → Bytes
  pub avg_latency_ms : ℕ → ℕ → Bytes

unfoldable pub join_fields : List Bytes → Bytes
join_fields [] = codes "\n"
join_fields (field ∷ []) = field ++ codes "\n"
join_fields (field ∷ next ∷ fields) = field ++ (codes "," ++ join_fields (next ∷ fields))

-- What is appended to results.csv; `at_start` is `csv.tellp() == 0`.
unfoldable pub csv_rows : Doubles → Bool → ℕ → ℕ → Bytes → Totals → Bytes
unfolding join_fields
csv_rows d at_start threads duration workload_str t =
    (if at_start
      then codes
          "threads,workload,total_requests,total_success,total_fail,throughput,avg_latency_ms\n"
      else [])
    ++ join_fields (
        to_string threads
        ∷ workload_str
        ∷ to_string t.total_req
        ∷ to_string t.total_ok
        ∷ to_string (t.total_req - t.total_ok)
        ∷ d.throughput t.total_ok duration
        ∷ d.avg_latency_ms t.total_latency t.total_ok
        ∷ [])
