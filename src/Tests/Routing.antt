-- ===== src/Tests/Routing.antt =====
-- The router.
use load_tester_project.Base.{
  map, inl, inr, List, [], ◌∷◌, some, Bytes, codes, ◌≡◌, ◌≢◌, refl, arith, All, select, str_eq, ◌<◌,
  if◌then◌else◌, true,
}
use load_tester_project.Base.StdMap
use load_tester_project.Base.StdSet
use load_tester_project.Base.StdSet.{contains}
use load_tester_project.Base.Streams.{c_str}
use load_tester_project.Base.UnorderedMap
use load_tester_project.Base.UnorderedMap.{find, int_keys}
use load_tester_project.Base.Decimal
use load_tester_project.Base.Decimal.{ℤ, pos}
use load_tester_project.Base.Result.{ok, throw, runtime_error, ◌>>=◌}
use load_tester_project.Backend.{Backend, down, node_id, spaced_id, recovering}
use load_tester_project.HashRing as Ring
use load_tester_project.HashRing.{is_empty}
use load_tester_project.HashRing.Walk.{preference}
use load_tester_project.HashRing.Replicas.{AllDifferent}
use load_tester_project.Router.{
  Router, init, register, is_up, mark_backend_down, mark_backend_up, mark_backend_recovering,
  get_backends_for_key, get_read_backends_for_key, get_write_backends_for_key, get_all_backends,
  get_online_backends,
}
use load_tester_project.Router.Validity.{IsValid, IsConsistent}
use load_tester_project.Router.Reach.{here, next, goes_down, recovers, reachable-IsValid, Reach}
use load_tester_project.Router.Routing.{
  Targets, preferred, get_write_backends_for_key-Targets, get_read_backends_for_key-select,
  mark_backend_down-preferred, recovering-reads, all_down_throws,
}
use load_tester_project.Clients.{Clients, Reply}
use load_tester_project.RecoveryManager.{recover, keys_in, value_in, has_port}
use load_tester_project.RecoveryManager.Steady.{Steady, IsIn, read_path}
use load_tester_project.RecoveryManager.Completeness.{IsCopied, recover-IsCopied}
use load_tester_project.RecoveryManager.Safety.{recover-keeps}
use load_tester_project.HealthChecker.{ping_backend, is_healthy, round, run}
use load_tester_project.HealthChecker.Loop.{set_for}
use load_tester_project.HealthChecker.Rounds.{IsDistinct, judged, round-judged}
use load_tester_project.LoadBalancer.{initial_router, initial_backends}
use load_tester_project.LoadBalancer.Rounds.{initial_router-judged}
use load_tester_project.Tests.Samples.{toy_hash, first_server, second_server}

program : Unit {0}
unfolding toy_hash init register is_empty mark_backend_down mark_backend_up mark_backend_recovering
    find UnorderedMap.assign Decimal.int_eq Ring.add_node Ring.remove_node Ring.init
    Ring.hash_string Ring.vnode_key node_id Ring.add_vnodes Ring.remove_vnodes StdMap.assign
    StdMap.erase Decimal.int_to_string Decimal.to_string
program = tt

abbrev pub servers : List Backend
servers = first_server ∷ second_server ∷ []

abbrev pub started : Router
started = register toy_hash servers (record { hash_ring = Ring.init 1; backends = [] })

built : init toy_hash servers 1 ≡ ok started
unfolding init
built = refl

consistent : IsConsistent toy_hash servers
consistent = ((λ e. cc), ((λ e. refl), tt), ((λ e. cc), tt, tt))

reachable-IsValid_example : IsValid toy_hash (mark_backend_down toy_hash (pos 9001) started)
reachable-IsValid_example =
    reachable-IsValid toy_hash servers 1 started _ consistent built
      (next here (goes_down (pos 9001) started))

started-IsValid : IsValid toy_hash started
started-IsValid = reachable-IsValid toy_hash servers 1 started started consistent built here

abbrev popular : Bytes
popular = codes "popular_3"

get_write_backends_for_key-Targets_example :
    (ts : List Backend) × (get_write_backends_for_key toy_hash popular 2 started ≡ ok ts)
    × Targets started.backends ts (preferred toy_hash popular 2 started)
    × AllDifferent ts
unfolding program
get_write_backends_for_key-Targets_example =
    get_write_backends_for_key-Targets toy_hash popular 2 started started-IsValid refl

get_read_backends_for_key-select_example :
    get_read_backends_for_key toy_hash popular 2 started
    ≡ (get_write_backends_for_key toy_hash popular 2 started >>= λ ts. ok (select is_up ts))
get_read_backends_for_key-select_example =
    get_read_backends_for_key-select toy_hash popular 2 started

mark_backend_down-preferred_example :
    All
      (λ n. n.port ≢ pos 9001)
      (preferred toy_hash popular 2 (mark_backend_down toy_hash (pos 9001) started))
unfolding program
mark_backend_down-preferred_example =
    mark_backend_down-preferred toy_hash popular 2 (pos 9001) started first_server started-IsValid
      refl

abbrev reviving : Router
reviving = mark_backend_recovering toy_hash (pos 9001) started

reviving_reads :
    (ts : List Backend) × (get_read_backends_for_key toy_hash popular 2 reviving ≡ ok ts)
unfolding program get_read_backends_for_key Ring.get_nodes Ring.walk Ring.unique_count
    StdSet.contains StdSet.insert StdSet.insert_all StdMap.lower_bound spaced_id str_eq
reviving_reads = (second_server ∷ [], refl)

reviving-IsValid : IsValid toy_hash reviving
reviving-IsValid =
    reachable-IsValid toy_hash servers 1 started reviving consistent built
      (next here (recovers (pos 9001) started))

recovering-reads_example : All (λ t. t.port ≢ pos 9001) reviving_reads.0
unfolding program
recovering-reads_example =
    recovering-reads toy_hash popular 2 (pos 9001) reviving
      (record first_server { status = recovering }) reviving_reads.0 reviving-IsValid refl refl
      reviving_reads.1

abbrev one_down : Router
one_down = mark_backend_down toy_hash (pos 9001) started

abbrev both_down : Router
both_down = mark_backend_down toy_hash (pos 9002) one_down

both_down-IsValid : IsValid toy_hash both_down
both_down-IsValid =
    reachable-IsValid toy_hash servers 1 started both_down consistent built
      (next (next here (goes_down (pos 9001) started)) (goes_down (pos 9002) one_down))

both_are_down : (port : ℤ) (b : Backend) → find port both_down.backends ≡ some b → b.status ≡ down
unfolding program
both_are_down port b e = ground arith

all_down_throws_example :
    (get_read_backends_for_key toy_hash popular 2 both_down ≡ throw runtime_error)
    × (get_write_backends_for_key toy_hash popular 2 both_down ≡ throw runtime_error)
    × (get_backends_for_key toy_hash popular 2 both_down ≡ throw runtime_error)
all_down_throws_example =
    all_down_throws toy_hash popular 2 both_down both_down-IsValid both_are_down

-- Servers that are all healthy and hold the keys foo and bar, with a log of what is posted to them.
abbrev Log : Type 0
Log = List (ℤ × Bytes × Bytes)

answer : Bytes → Reply
unfolding str_eq
answer path =
    if str_eq path (codes "/kvstore/allkeys")
    then record { status = 200; body = codes "foo\nbar\n" }
    else record { status = 200; body = codes "1" }

abbrev clients : Clients
clients = record {
  Net = Log;
  get = λ b path n. (some (answer path), n);
  post = λ b path value n. (some (record { status = 201; body = [] }), (b.port, path, value) ∷ n);
}

abbrev OnlyTo : ℤ → Log → Type 0
OnlyTo port log = All (λ w. w.0 ≡ port) log

recover-keeps_example :
    (n' : Log) × (recover clients toy_hash first_server started [] ≡ ok n')
    × OnlyTo first_server.port n'
unfolding program
recover-keeps_example =
    recover-keeps clients first_server (OnlyTo first_server.port) (λ b path n i. i) toy_hash started
      (λ key value n w i. (refl, i)) [] refl tt

abbrev steady : Steady clients first_server
steady = record {
  answers = λ b path. some (answer path);
  writes = λ log. map (λ w. (w.1, w.2)) log;
  answers_law = λ b path n other. refl;
  get_law = λ b path n. refl;
  post_law = λ path value n. refl;
}

foo_listed :
    contains (codes "foo") (keys_in clients (some (answer (codes "/kvstore/allkeys")))) ≡ true
unfolding answer str_eq keys_in contains
foo_listed = refl

foo_owned : has_port first_server.port (preferred toy_hash (codes "foo") 2 started) ≡ true
unfolding program has_port preference StdMap.lower_bound contains
foo_owned = refl

foo_replicated : IsIn second_server (preferred toy_hash (codes "foo") 2 started)
unfolding program preference StdMap.lower_bound contains StdSet.insert str_eq
foo_replicated = inr (inl refl)

second_online : IsIn second_server (get_online_backends started)
unfolding program get_online_backends
second_online = inr (inl refl)

has_value : value_in clients (some (answer (read_path (codes "foo")))) ≢ []
unfolding value_in answer str_eq c_str
has_value = λ e. cc e

recover-IsCopied_example :
    (n' : Log) × (recover clients toy_hash first_server started [] ≡ ok n')
    × IsCopied clients first_server steady
        (codes "foo")
        (preferred toy_hash (codes "foo") 2 started)
        n'
unfolding program
recover-IsCopied_example =
    recover-IsCopied clients first_server steady toy_hash started (codes "foo") second_server
      second_server [] refl second_online refl foo_listed foo_owned foo_replicated refl has_value

abbrev first_down : Router
first_down = mark_backend_down toy_hash (pos 9001) started

all_healthy : (b : Backend) (n : Log) → (ping_backend clients toy_hash b n).0 ≡ true
unfolding ping_backend answer is_healthy str_eq
all_healthy b n = refl

initial_router-judged_example :
    (r r' : Router) × (n' : Log) × (initial_router toy_hash ≡ ok r)
    × (run clients toy_hash (set_for 3) r [] ≡ ok (r', n'))
    × IsValid toy_hash r'
    × All (λ b. find b.port r'.backends ≡ some (judged (λ x. true) b)) initial_backends
initial_router-judged_example =
    initial_router-judged toy_hash clients (λ port. true) 2 [] all_healthy

first_down-IsDistinct : IsDistinct (get_all_backends first_down)
unfolding program get_all_backends
first_down-IsDistinct = ((refl, tt), (tt, tt))

first_down-found : All (λ b. find b.port first_down.backends ≡ some b) (get_all_backends first_down)
unfolding program get_all_backends
first_down-found = (refl, (refl, tt))

first_down-vnodes : 0 < first_down.hash_ring.num_vnodes
unfolding program
first_down-vnodes = omega arith

round-judged_example :
    (r' : Router) × (n' : Log) × (round clients toy_hash first_down [] ≡ ok (r', n'))
    × Reach toy_hash first_down r'
    × All (λ b. find b.port r'.backends ≡ some (judged (λ x. true) b)) (get_all_backends first_down)
round-judged_example =
    round-judged toy_hash clients (λ x. true) all_healthy first_down [] first_down-vnodes
      first_down-IsDistinct first_down-found
