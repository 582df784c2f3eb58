-- ===== src/Router.antt =====
-- load_balancer/src/Router.cpp and load_balancer/include/Router.h: which backends serve a key,
-- and the status of each. The map of backends has no lock: a method is one step here.
pub mod Validity
pub mod Routing
pub mod Reach
use load_tester_project.Base.{
  ℕ, Bool, true, false, ◌||◌, List, [], ◌∷◌, map, Option, none, some, Bytes, if◌then◌else◌,
}
use load_tester_project.Base.Decimal.{ℤ}
use load_tester_project.Base.Result.{
  Result, ok, throw, invalid_argument, runtime_error, fueled, ◌>>=◌,
}
use load_tester_project.Base.UnorderedMap.{find, assign, erase, int_keys}
use load_tester_project.Backend.{Backend, BackendStatus, up, recovering, down}
use load_tester_project.HashRing.{HashRing, is_empty, add_node, remove_node, get_nodes}
use load_tester_project.HashRing as Ring

pub record Router : Type 0 where
  pub hash_ring : HashRing
  pub backends : List (ℤ × Backend)

unfoldable pub is_up : Backend → Bool
is_up b = elim b.status [ up ↦ true | _ ↦ false ]

unfoldable pub is_recovering : Backend → Bool
is_recovering b = elim b.status [ recovering ↦ true | _ ↦ false ]

-- The loop of `getReadBackendsForKey`.
unfoldable pub read_targets : List (ℤ × Backend) → List Backend → List Backend
unfolding is_up
read_targets backends [] = []
read_targets backends (node ∷ nodes) =
    let rest = read_targets backends nodes in
    elim (find node.port backends) [ none ↦ rest | some b ↦ if is_up b then b ∷ rest else rest ]

-- The loop of `getWriteBackendsForKey`.
unfoldable pub write_targets : List (ℤ × Backend) → List Backend → List Backend
unfolding is_up is_recovering
write_targets backends [] = []
write_targets backends (node ∷ nodes) =
    let rest = write_targets backends nodes in
    elim (find node.port backends) [
      | none ↦ rest
      | some b ↦ if is_up b || is_recovering b then b ∷ rest else rest
    ]

-- The loop of `getOnlineBackends`.
unfoldable pub online : List (ℤ × Backend) → List Backend
unfolding is_up
online [] = []
online ((port, b) ∷ m) = let rest = online m in if is_up b then b ∷ rest else rest

-- `Router::getOnlineBackends`
unfoldable pub get_online_backends : Router → List Backend
unfolding online
get_online_backends r = online r.backends

-- `Router::getAllBackends`
unfoldable pub get_all_backends : Router → List Backend
get_all_backends r = map (λ e. e.1) r.backends

module _ (hasher : Bytes → ℕ) where
  -- The loop of the constructor.
  unfoldable pub register : List Backend → Router → Router
  register [] r = r
  register (b ∷ bs) r =
      register bs (record {
        hash_ring = add_node hasher b r.hash_ring;
        backends = assign b.port b r.backends;
      })

  -- `Router::Router`
  unfoldable pub init : List Backend → ℕ → Result Router
  unfolding register
  init [] vnodes = throw invalid_argument
  init (b ∷ bs) vnodes =
      ok (register (b ∷ bs) (record { hash_ring = Ring.init vnodes; backends = [] }))

  -- `Router::removeBackend`
  unfoldable pub remove_backend : Backend → Router → Router
  remove_backend b r = record {
    hash_ring = remove_node hasher b r.hash_ring;
    backends = erase b.port r.backends;
  }

  -- `Router::getBackendsForKey`
  unfoldable pub get_backends_for_key : Bytes → ℕ → Router → Result (List Backend)
  unfolding is_empty
  get_backends_for_key key factor r =
      if is_empty r.hash_ring
      then throw runtime_error
      else fueled (get_nodes hasher key factor r.hash_ring)

  -- `Router::getReadBackendsForKey`
  unfoldable pub get_read_backends_for_key : Bytes → ℕ → Router → Result (List Backend)
  unfolding is_empty read_targets
  get_read_backends_for_key key factor r = if is_empty r.hash_ring then throw runtime_error else (do
    nodes ← fueled (get_nodes hasher key factor r.hash_ring)
    ok (read_targets r.backends nodes))

  -- `Router::getWriteBackendsForKey`
  unfoldable pub get_write_backends_for_key : Bytes → ℕ → Router → Result (List Backend)
  unfolding is_empty write_targets
  get_write_backends_for_key key factor r =
      if is_empty r.hash_ring then throw runtime_error else (do
        nodes ← fueled (get_nodes hasher key factor r.hash_ring)
        ok (write_targets r.backends nodes))

  -- `Router::markBackendRecovering`
  unfoldable pub mark_backend_recovering : ℤ → Router → Router
  mark_backend_recovering port r = elim (find port r.backends) [
    | none ↦ r
    | some b ↦
        let b' = record b { status = recovering } in
        record { hash_ring = add_node hasher b' r.hash_ring; backends = assign port b' r.backends }
  ]

  -- `Router::markBackendUp`
  unfoldable pub mark_backend_up : ℤ → Router → Router
  mark_backend_up port r = elim (find port r.backends) [
    | none ↦ r
    | some b ↦
        let b' = record b { status = up } in
        record { hash_ring = add_node hasher b' r.hash_ring; backends = assign port b' r.backends }
  ]

  -- `Router::markBackendDown`
  unfoldable pub mark_backend_down : ℤ → Router → Router
  mark_backend_down port r = elim (find port r.backends) [
    | none ↦ r
    | some b ↦
        let b' = record b { status = down } in
        record {
          hash_ring = remove_node hasher b' r.hash_ring;
          backends = assign port b' r.backends;
        }
  ]
