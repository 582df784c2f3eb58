-- ===== src/RecoveryManager.antt =====
-- load_balancer/src/RecoveryManager.cpp: copies the keys that a backend owns to it when it is back.
-- The router is the one the recovery starts with: calls of other threads are not in the model.
pub mod Keys
pub mod Safety
pub mod Steady
pub mod Completeness
use load_tester_project.Base.{
  ℕ, Bool, true, false, ◌||◌, List, [], ◌∷◌, ◌++◌, Option, none, some, Bytes, codes, ◌==◌,
  if◌then◌else◌,
}
use load_tester_project.Base.Decimal.{ℤ, int_eq}
use load_tester_project.Base.Result.{Result, ok, throw, ◌>>=◌}
use load_tester_project.Base.Streams.{all_lines, c_str}
use load_tester_project.Base.StdSet.{insert_all}
use load_tester_project.Backend.{Backend}
use load_tester_project.Clients.{Clients, Reply}
use load_tester_project.Router.{Router, get_online_backends, get_backends_for_key}

-- `if (!key.empty()) keys.push_back(key);`
unfoldable pub non_empty : List Bytes → List Bytes
non_empty [] = []
non_empty ([] ∷ lines) = non_empty lines
non_empty ((c ∷ line) ∷ lines) = (c ∷ line) ∷ non_empty lines

-- The loop of `fetchAllKeysFromNode`.
unfoldable pub key_lines : Bytes → List Bytes
unfolding all_lines non_empty
key_lines body = non_empty (all_lines body)

-- `should_own`
unfoldable pub has_port : ℤ → List Backend → Bool
has_port port [] = false
has_port port (b ∷ bs) = int_eq b.port port || has_port port bs

module _ (c : Clients) where
  -- The keys in a result of `cli.Get("/kvstore/allkeys")`.
  unfoldable pub keys_in : Option Reply → List Bytes
  unfolding key_lines
  keys_in none = []
  keys_in (some r) = if r.status == 200 then key_lines r.body else []

  -- `RecoveryManager::fetchAllKeysFromNode`
  unfoldable pub fetch_all_keys_from_node : Backend → c.Net → List Bytes × c.Net
  unfolding keys_in
  fetch_all_keys_from_node b net =
      let (res, net') = c.get b (codes "/kvstore/allkeys") net in (keys_in res, net')

  -- The value in a result of `cli.Get`.
  unfoldable pub value_in : Option Reply → Bytes
  value_in none = []
  value_in (some r) = if r.status == 200 then r.body else []

  -- `RecoveryManager::fetchValueFromPeer`
  unfoldable pub fetch_value_from_peer : Backend → Bytes → c.Net → Bytes × c.Net
  unfolding value_in
  fetch_value_from_peer peer key net =
      let (res, net') = c.get peer (c_str (codes "/kvstore/" ++ key)) net in (value_in res, net')

  -- Whether a result of `cli.Post` has status 200 or 201.
  unfoldable pub is_stored : Option Reply → Bool
  is_stored none = false
  is_stored (some r) = r.status == 200 || r.status == 201

  -- `RecoveryManager::writeValueToRecoveredNode`
  unfoldable pub write_value_to_recovered_node : Backend → Bytes → Bytes → c.Net → Bool × c.Net
  unfolding is_stored
  write_value_to_recovered_node target key value net =
      let (res, net') = c.post target (c_str (codes "/kvstore/sync/" ++ key)) value net in
      (is_stored res, net')

  -- The first loop of `recover`: the key space.
  unfoldable pub gather : ℤ → List Backend → List Bytes → c.Net → List Bytes × c.Net
  unfolding fetch_all_keys_from_node
  gather port [] keys net = (keys, net)
  gather port (node ∷ nodes) keys net = elim (int_eq node.port port) [
    | true ↦ gather port nodes keys net
    | false ↦
        let (found, net') = fetch_all_keys_from_node node net in
        gather port nodes (insert_all keys found) net'
  ]

  -- The loop of `recover` over the replicas of a key: the source value.
  unfoldable pub find_source : ℤ → Bytes → List Backend → c.Net → Bytes × c.Net
  unfolding fetch_value_from_peer
  find_source port key [] net = ([], net)
  find_source port key (b ∷ bs) net = elim (int_eq b.port port) [
    | true ↦ find_source port key bs net
    | false ↦
        let (value, net') = fetch_value_from_peer b key net in
        elim value [ [] ↦ find_source port key bs net' | (x ∷ v) ↦ (x ∷ v, net') ]
  ]

  -- `if (!source_value.empty())`
  unfoldable pub write_source : Backend → Bytes → Bytes × c.Net → c.Net
  unfolding write_value_to_recovered_node
  write_source target key ([], net) = net
  write_source target key (x ∷ v, net) = (write_value_to_recovered_node target key (x ∷ v) net).1

  -- What `recover` does with one key, once its replicas are known.
  unfoldable pub copy_key : Backend → Bytes → List Backend → c.Net → c.Net
  unfolding has_port find_source write_source
  copy_key target key replicas net =
      if has_port target.port replicas
      then write_source target key (find_source target.port key replicas net)
      else net

  module _ (hasher : Bytes → ℕ) where
    -- The second loop of `recover`.
    unfoldable pub copy_keys : Backend → Router → List Bytes → c.Net → Result c.Net
    unfolding copy_key
    copy_keys target r [] net = ok net
    copy_keys target r (key ∷ keys) net = do
      replicas ← get_backends_for_key hasher key 2 r
      copy_keys target r keys (copy_key target key replicas net)

    -- `RecoveryManager::recover`
    unfoldable pub recover : Backend → Router → c.Net → Result c.Net
    unfolding gather copy_keys
    recover target r net =
        let (keys, net') = gather target.port (get_online_backends r) [] net in
        copy_keys target r keys net'
