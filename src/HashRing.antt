-- ===== src/HashRing.antt =====
-- load_balancer/src/HashRing.cpp and load_balancer/include/HashRing.h: the consistent hash ring.
pub mod Slots
pub mod Walk
pub mod Lookup
pub mod Replicas
pub mod Disruption
pub mod Service
use load_tester_project.Base.{
  ℕ, suc, zero, ◌+◌, ◌%◌, ◌^◌, Bool, true, false, ◌&&◌, List, [], ◌∷◌, ◌++◌, map, Option, none,
  some, Bytes, codes, length, ltb,
}
use load_tester_project.Base.Decimal.{to_string}
use load_tester_project.Base.StdMap.{assign, erase, lower_bound}
use load_tester_project.Base.StdSet.{contains, insert, insert_all}
use load_tester_project.Backend.{Backend, node_id, spaced_id}

-- The mutex holds each method whole, so a method is one step of the ring.
pub record HashRing : Type 0 where
  pub num_vnodes : ℕ
  pub ring : List (ℕ × Backend)

-- `HashRing::HashRing`
unfoldable pub init : ℕ → HashRing
init num_vnodes = record { num_vnodes = num_vnodes; ring = [] }

-- `HashRing::empty`
unfoldable pub is_empty : HashRing → Bool
is_empty h = elim h.ring [ [] ↦ true | _ ↦ false ]

-- `node_id + "#vnode_" + std::to_string(i)`
unfoldable pub vnode_key : Backend → ℕ → Bytes
vnode_key node i = node_id node ++ (codes "#vnode_" ++ to_string i)

-- `hasher` is `std::hash<std::string>`, which the standard leaves to the implementation.
module _ (hasher : Bytes → ℕ) where
  -- `HashRing::hash_string`: the cast to `uint32_t` keeps the low 32 bits.
  unfoldable pub hash_string : Bytes → ℕ
  hash_string key = hasher key % 2 ^ 32

  -- The loop of `add_node`; `i` counts up, `rounds` are left.
  unfoldable pub add_vnodes : ℕ → ℕ → Backend → List (ℕ × Backend) → List (ℕ × Backend)
  add_vnodes zero i node ring = ring
  add_vnodes (suc rounds) i node ring =
      add_vnodes rounds (i + 1) node (assign (hash_string (vnode_key node i)) node ring)

  -- `HashRing::add_node`
  unfoldable pub add_node : Backend → HashRing → HashRing
  add_node node h = record h { ring = add_vnodes h.num_vnodes 0 node h.ring }

  -- The loop of `remove_node`.
  unfoldable pub remove_vnodes : ℕ → ℕ → Backend → List (ℕ × Backend) → List (ℕ × Backend)
  remove_vnodes zero i node ring = ring
  remove_vnodes (suc rounds) i node ring =
      remove_vnodes rounds (i + 1) node (erase (hash_string (vnode_key node i)) ring)

  -- `HashRing::remove_node`
  unfoldable pub remove_node : Backend → HashRing → HashRing
  remove_node node h = record h { ring = remove_vnodes h.num_vnodes 0 node h.ring }

-- `if (it == ring_.end()) it = ring_.begin();`
unfoldable pub wrap : List (ℕ × Backend) → List (ℕ × Backend) → List (ℕ × Backend)
wrap ring [] = ring
wrap ring (e ∷ it) = e ∷ it

-- The `while` loop of `getNodes`. `none` means that the fuel ran out, or that the iterator was
-- read at the end of an empty map.
unfoldable pub walk :
    ℕ
    → List (ℕ × Backend)
    → ℕ
    → ℕ
    → List (ℕ × Backend)
    → List Bytes
    → List Backend
    → Option (List Backend)
unfolding wrap
walk zero ring factor unique it seen result = none
walk (suc fuel) ring factor unique it seen result =
    elim (ltb (length result) factor && ltb (length seen) unique) [
      | false ↦ some result
      | true ↦ elim (wrap ring it) [
        | [] ↦ none
        | (hash, backend) ∷ it' ↦ elim (contains (node_id backend) seen) [
          | true ↦ walk fuel ring factor unique it' seen result
          | false ↦
              walk fuel ring factor unique it' (insert (node_id backend) seen)
                (result ++ backend ∷ [])
        ]
      ]
    ]

-- The first loop of `getNodes`: the number of `unique_backends`.
unfoldable pub unique_count : List (ℕ × Backend) → ℕ
unique_count ring = length (insert_all [] (map (λ e. spaced_id e.1) ring))

-- `HashRing::getNodes`. One round for each entry of the ring, and one for the last test.
unfoldable pub get_nodes : (Bytes → ℕ) → Bytes → ℕ → HashRing → Option (List Backend)
get_nodes hasher key factor h = elim h.ring [
  | [] ↦ some []
  | _ ∷ _ ↦
      walk (suc (length h.ring)) h.ring factor (unique_count h.ring)
        (lower_bound (hash_string hasher key) h.ring) [] []
]
