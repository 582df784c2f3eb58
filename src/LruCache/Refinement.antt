-- ===== src/LruCache/Refinement.antt =====
-- The cache keeps its invariant, never meets undefined behaviour, and does what the
-- specification says.
use load_tester_project.Base.{
  ℕ, ◌≤◌, ◌<◌, not, [], ◌∷◌, map, Option, none, some, Bytes, ◌≡◌, inl, inr, refl, arith,
  Option-cases, length, All, All-select, str_eq, str_eq_iff, length-select-le,
}
use load_tester_project.Base.UnorderedMap.{find, erase, find-erase, string_keys}
use mathlib.Core.Option
use load_tester_project.LruCache.{Node, LruCache, deref, read_key, update_key, delete_key, init}
use load_tester_project.LruCache.Nodes.{
  Unique, pair, node_of, others, Unique-select, node_of_key, node_of-others, lookup-node_of,
  remove-others, length-others, others-apart, splice-node_of, write_value-splice,
  erase_node-node_of, All-node_of,
}
use load_tester_project.LruCache.Spec.{Pairs, lookup, remove, but_last}
use load_tester_project.LruCache.Spec

pub record IsValid (c : LruCache) : Type 0 where
  pub positive : 0 < c.capacity
  pub bounded : length c.cache_list ≤ c.capacity
  pub unique : Unique c.cache_list
  pub fresh : All (λ n. n.address < c.next_address) c.cache_list
  -- The map gives for each key the iterator of its node.
  pub indexed :
      (k : Bytes) → find k c.cache_map ≡ Option.map (λ n. n.address) (node_of k c.cache_list)

abbrev pub pairs : LruCache → Pairs
pairs c = map pair c.cache_list

-- The node of a key goes to the front, with a new value.
promote-IsValid :
    (c : LruCache) (k v : Bytes) (n : Node)
    → node_of k c.cache_list ≡ some n
    → IsValid c
    → IsValid (record c { cache_list = record n { value = v } ∷ others k c.cache_list })
unfolding node_of
promote-IsValid c k v n e i = record {
  positive = i.positive;
  bounded = omega (arith, length-others k c.cache_list n i.unique e, i.bounded);
  unique = (others-apart k c.cache_list n i.unique e, Unique-select _ c.cache_list i.unique);
  fresh = (All-node_of _ k c.cache_list n i.fresh e, All-select _ _ c.cache_list i.fresh);
  indexed = λ q. ground (
    arith,
    i.indexed q,
    e,
    node_of-others q k c.cache_list,
    node_of_key k c.cache_list n e,
    str_eq_iff q k,
  );
}

pub drop-IsValid :
    (c : LruCache) (k : Bytes)
    → IsValid c
    → IsValid (record c { cache_list = others k c.cache_list; cache_map = erase k c.cache_map })
drop-IsValid c k i = record {
  positive = i.positive;
  bounded = omega (arith, length-select-le {0} (λ n. not (str_eq k n.key)) c.cache_list, i.bounded);
  unique = Unique-select _ c.cache_list i.unique;
  fresh = All-select _ _ c.cache_list i.fresh;
  indexed =
      λ q. ground (arith, i.indexed q, find-erase k q c.cache_map, node_of-others q k c.cache_list);
}

-- A hit.
pub hit_in :
    (c : LruCache) (k : Bytes) (n : Node)
    → IsValid c
    → node_of k c.cache_list ≡ some n
    → (find k c.cache_map ≡ some n.address) × (lookup k (pairs c) ≡ some n.value)
hit_in c k n i e =
    (ground (arith, i.indexed k, e), ground (arith, lookup-node_of k c.cache_list, e))

pub miss_in :
    (c : LruCache) (k : Bytes)
    → IsValid c
    → node_of k c.cache_list ≡ none
    → (find k c.cache_map ≡ none) × (lookup k (pairs c) ≡ none)
miss_in c k i e = (ground (arith, i.indexed k, e), ground (arith, lookup-node_of k c.cache_list, e))

-- An operation gives this result, and leaves a valid cache of the same capacity with these pairs.
pub record Gives {A : Type 0} (c : LruCache) (outcome : Option (A × LruCache)) (spec : A × Pairs)
    : Type 0 where
  pub after : LruCache
  pub returns : outcome ≡ some (spec.0, after)
  pub valid : IsValid after
  pub contents : pairs after ≡ spec.1
  pub same_capacity : after.capacity ≡ c.capacity

pub read_key-Gives :
    (k : Bytes) (c : LruCache) → IsValid c → Gives c (read_key k c) (Spec.read k (pairs c))
unfolding read_key Spec.read deref
read_key-Gives k c i = elim (Option-cases (node_of k c.cache_list)) [
  | inl missing ↦
      let (no_entry, no_pair) = miss_in c k i missing in
      record {
        after = c;
        returns = ground (arith, no_entry, no_pair);
        valid = i;
        contents = ground (arith, no_pair);
        same_capacity = refl;
      }
  | inr (n, found) ↦
      let (entry, value) = hit_in c k n i found in
      record {
        after = record c { cache_list = n ∷ others k c.cache_list };
        returns = ground (arith, entry, value, splice-node_of k c.cache_list n i.unique found);
        valid = promote-IsValid c k n.value n found i;
        contents =
            ground (arith, value, remove-others k c.cache_list, node_of_key k c.cache_list n found);
        same_capacity = refl;
      }
]

pub update_key-Gives :
    (k v : Bytes) (c : LruCache)
    → IsValid c
    → Gives c (update_key k v c) (Spec.update k v (pairs c))
unfolding update_key Spec.update
update_key-Gives k v c i = elim (Option-cases (node_of k c.cache_list)) [
  | inl missing ↦
      let (no_entry, no_pair) = miss_in c k i missing in
      record {
        after = c;
        returns = ground (arith, no_entry, no_pair);
        valid = i;
        contents = ground (arith, no_pair);
        same_capacity = refl;
      }
  | inr (n, found) ↦
      let (entry, value) = hit_in c k n i found in
      record {
        after = record c { cache_list = record n { value = v } ∷ others k c.cache_list };
        returns =
            ground (arith, entry, value, write_value-splice k v c.cache_list n i.unique found);
        valid = promote-IsValid c k v n found i;
        contents =
            ground (arith, value, remove-others k c.cache_list, node_of_key k c.cache_list n found);
        same_capacity = refl;
      }
]

pub delete_key-Gives :
    (k : Bytes) (c : LruCache) → IsValid c → Gives c (delete_key k c) (Spec.delete k (pairs c))
unfolding delete_key Spec.delete
delete_key-Gives k c i = elim (Option-cases (node_of k c.cache_list)) [
  | inl missing ↦
      let (no_entry, no_pair) = miss_in c k i missing in
      record {
        after = c;
        returns = ground (arith, no_entry, no_pair);
        valid = i;
        contents = ground (arith, no_pair);
        same_capacity = refl;
      }
  | inr (n, found) ↦
      let (entry, value) = hit_in c k n i found in
      record {
        after = record c { cache_list = others k c.cache_list; cache_map = erase k c.cache_map };
        returns = ground (arith, entry, value, erase_node-node_of k c.cache_list n i.unique found);
        valid = drop-IsValid c k i;
        contents = ground (arith, value, remove-others k c.cache_list);
        same_capacity = refl;
      }
]

pub init-IsValid :
    (capacity : ℕ) → 0 < capacity → IsValid (init capacity) × (pairs (init capacity) ≡ [])
unfolding init find node_of
init-IsValid capacity h = (
  record { positive = h; bounded = omega arith; unique = tt; fresh = tt; indexed = λ k. refl },
  refl,
)
