-- ===== src/Tests/Ring.antt =====
-- The hash ring.
use load_tester_project.Base.{
  ℕ, min, List, [], ◌∷◌, none, some, Bytes, codes, ◌≡◌, refl, true, arith, take, length, All,
  select, str_eq,
}
use load_tester_project.Base.StdMap
use load_tester_project.Base.StdSet
use load_tester_project.Base.Decimal
use load_tester_project.Backend.{Backend, node_id, spaced_id}
use load_tester_project.HashRing.{
  HashRing, init, add_node, remove_node, get_nodes, unique_count, hash_string, vnode_key,
}
use load_tester_project.HashRing as Ring
use load_tester_project.HashRing.Replicas
use load_tester_project.HashRing.Walk.{preference}
use load_tester_project.HashRing.Slots.{owns, add_node-IsSorted}
use load_tester_project.HashRing.Disruption.{
  is_other, IsClean, preference-remove_node, preference-add_node,
}
use load_tester_project.HashRing.Lookup.{get_nodes-preference}
use load_tester_project.HashRing.Service.{get_nodes_replicas}
use load_tester_project.Tests.Samples.{toy_hash, first_server, second_server, third_server}

program : Unit {0}
unfolding toy_hash init add_node remove_node get_nodes unique_count hash_string vnode_key owns
    preference is_other node_id spaced_id Ring.walk Ring.add_vnodes Ring.remove_vnodes StdMap.assign
    StdMap.find StdMap.lower_bound StdMap.before str_eq StdSet.contains StdSet.insert
    StdSet.insert_all Decimal.int_to_string Decimal.to_string
program = tt

abbrev two_nodes : HashRing
two_nodes = add_node toy_hash second_server (add_node toy_hash first_server (init 1))

abbrev three_nodes : HashRing
three_nodes = add_node toy_hash third_server two_nodes

get_two :
    get_nodes toy_hash (codes "popular_3") 2 three_nodes ≡ some (second_server ∷ first_server ∷ [])
unfolding program
get_two = refl

abbrev popular : Bytes
popular = codes "popular_3"

two-IsSorted : StdMap.IsSorted two_nodes.ring
two-IsSorted =
    add_node-IsSorted toy_hash second_server (add_node toy_hash first_server (init 1))
      (add_node-IsSorted toy_hash first_server (init 1) (unfold init in tt))

three-IsSorted : StdMap.IsSorted three_nodes.ring
three-IsSorted = add_node-IsSorted toy_hash third_server two_nodes two-IsSorted

get_nodes-preference_example :
    get_nodes toy_hash popular 2 three_nodes
    ≡ some (take 2 (preference toy_hash popular three_nodes))
get_nodes-preference_example = get_nodes-preference toy_hash popular three_nodes 2

get_nodes_replicas_example :
    (ns : List Backend) × (get_nodes toy_hash popular 2 three_nodes ≡ some ns)
    × Replicas.AllDifferent ns
    × All (λ b. b.ip ≡ codes "127.0.0.1") ns
    × (length ns ≡ min 2 (unique_count three_nodes.ring))
unfolding program
get_nodes_replicas_example =
    get_nodes_replicas toy_hash popular 2 three_nodes (λ b. b.ip ≡ codes "127.0.0.1")
      (refl, (refl, (refl, tt)))

third-IsClean : IsClean toy_hash third_server three_nodes
unfolding program
third-IsClean = (refl, (refl, (refl, tt)))

third_free :
    (k : ℕ) → owns toy_hash two_nodes third_server k ≡ true → StdMap.find k two_nodes.ring ≡ none
unfolding program
third_free k o = ground arith

preference-remove_node_example :
    preference toy_hash popular (remove_node toy_hash third_server three_nodes)
    ≡ select (is_other third_server) (preference toy_hash popular three_nodes)
preference-remove_node_example =
    preference-remove_node toy_hash third_server three_nodes popular three-IsSorted third-IsClean

preference-add_node_example :
    select (is_other third_server) (preference toy_hash popular three_nodes)
    ≡ preference toy_hash popular two_nodes
preference-add_node_example =
    preference-add_node toy_hash third_server two_nodes popular two-IsSorted third_free
      third-IsClean

-- Under a hash that gives every text the same value all virtual nodes collide.
abbrev flat_hash : Bytes → ℕ
flat_hash s = 5

abbrev one_node : HashRing
one_node = add_node flat_hash first_server (init 1)
