-- ===== src/LruCache.antt =====
-- kvcache.h: the cache of a server. The list of pairs and the map from keys to its iterators are
-- both modelled: a list node has an address, and an iterator is the address of its node. The
-- mutex holds each method whole, so a method is one step. `none` is undefined behaviour: an
-- iterator whose node is gone, or `back()` of an empty list.
pub mod Nodes
pub mod Spec
pub mod Refinement
pub mod Eviction
pub mod Entries
pub mod Trace
use load_tester_project.Base.{
  ℕ, ◌+◌, Bool, true, false, not, List, [], ◌∷◌, map, Option, none, some, Bytes, leb, ◌==◌,
  if◌then◌else◌, length, select,
}
use load_tester_project.Base.Decimal.{ℤ, pos, negsuc}
use load_tester_project.Base.UnorderedMap.{find, assign, erase, string_keys}

pub record Node : Type 0 where
  pub address : ℕ
  pub key : Bytes
  pub value : Bytes

pub record LruCache : Type 0 where
  pub capacity : ℕ
  pub cache_list : List Node
  pub cache_map : List (Bytes × ℕ)
  -- The address of the next node that is allocated.
  pub next_address : ℕ

infixl 5 ◌>>=◌
abbrev pub ◌>>=◌ : {A B : Type 0} → Option A → (A → Option B) → Option B
none >>= f = none
some a >>= f = f a

-- `*it`
unfoldable pub deref : ℕ → List Node → Option Node
deref it [] = none
deref it (n ∷ l) = if n.address == it then some n else deref it l

-- The list without the node of an iterator.
unfoldable pub without : ℕ → List Node → List Node
without it l = select (λ n. not (n.address == it)) l

-- `cache_list.splice(cache_list.begin(), cache_list, it)`
unfoldable pub splice : ℕ → List Node → Option (List Node)
unfolding deref without
splice it l = do n ← deref it l; some (n ∷ without it l)

-- `cache_list.erase(it)`
unfoldable pub erase_node : ℕ → List Node → Option (List Node)
unfolding deref without
erase_node it l = do _ ← deref it l; some (without it l)

-- `it->second = value`
unfoldable pub write_value : ℕ → Bytes → List Node → Option (List Node)
write_value it v [] = none
write_value it v (n ∷ l) =
    let later = (do l' ← write_value it v l; some (n ∷ l')) in
    if n.address == it then some (record n { value = v } ∷ l) else later

-- `cache_list.back()`
unfoldable pub back : List Node → Option Node
back [] = none
back (n ∷ []) = some n
back (n ∷ m ∷ l) = back (m ∷ l)

-- `cache_list.pop_back()` on a list that is not empty.
unfoldable pub pop_back : List Node → List Node
pop_back [] = []
pop_back (n ∷ []) = []
pop_back (n ∷ m ∷ l) = n ∷ pop_back (m ∷ l)

-- `LRUCache::LRUCache`
unfoldable pub init : ℕ → LruCache
init capacity = record { capacity = capacity; cache_list = []; cache_map = []; next_address = 0 }

-- `LRUCache::read_key`
unfoldable pub read_key : Bytes → LruCache → Option (Bytes × LruCache)
unfolding splice deref
read_key key c = elim (find key c.cache_map) [
  | none ↦ some ([], c)
  | some it ↦ do
    l ← splice it c.cache_list
    n ← deref it l
    some (n.value, record c { cache_list = l })
]

-- The eviction in `create_key`.
unfoldable pub make_room : LruCache → Option LruCache
unfolding back pop_back
make_room c =
    if leb c.capacity (length c.cache_list)
    then (do
      lru ← back c.cache_list
      some (record c { cache_map = erase lru.key c.cache_map; cache_list = pop_back c.cache_list }))
    else some c

-- `LRUCache::create_key`
unfoldable pub create_key : Bytes → Bytes → LruCache → Option (ℤ × LruCache)
unfolding make_room
create_key key value c = elim (find key c.cache_map) [
  | some _ ↦ some (negsuc 0, c)
  | none ↦ do
    c' ← make_room c
    some (
      pos 0,
      record c' {
        cache_list = record { address = c'.next_address; key = key; value = value } ∷ c'.cache_list;
        cache_map = assign key c'.next_address c'.cache_map;
        next_address = c'.next_address + 1;
      },
    )
]

-- `LRUCache::update_key`
unfoldable pub update_key : Bytes → Bytes → LruCache → Option (ℤ × LruCache)
unfolding write_value splice
update_key key value c = elim (find key c.cache_map) [
  | some it ↦ do
    written ← write_value it value c.cache_list
    l ← splice it written
    some (pos 0, record c { cache_list = l })
  | none ↦ some (negsuc 0, c)
]

-- `LRUCache::delete_key`
unfoldable pub delete_key : Bytes → LruCache → Option (ℤ × LruCache)
unfolding erase_node
delete_key key c = elim (find key c.cache_map) [
  | some it ↦ do
    l ← erase_node it c.cache_list
    some (pos 0, record c { cache_list = l; cache_map = erase key c.cache_map })
  | none ↦ some (negsuc 0, c)
]
