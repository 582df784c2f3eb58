-- ===== src/LruCache/Eviction.antt =====
-- Creating a key, and the eviction that makes room for it.
use load_tester_project.Base.{
  ℕ, ◌+◌, ◌<◌, true, List, [], ◌∷◌, none, some, Bytes, ◌≡◌, ◌≢◌, inl, inr, refl, sym, ap, ◌∙◌,
  arith, leb, if◌then◌else◌, Bool-cases, Option-cases, length, All, All-map, str_eq_iff, length-map,
}
use load_tester_project.Base.UnorderedMap.{assign, erase, find-assign, string_keys}
use load_tester_project.LruCache.{Node, LruCache, create_key, make_room, back, pop_back}
use load_tester_project.LruCache.Nodes.{
  pair, node_of, others, node_of-others, but_last-pop_back, back-others, length-others,
}
use load_tester_project.LruCache.Spec.{Pairs, lookup, remove, but_last}
use load_tester_project.LruCache.Spec
use load_tester_project.LruCache.Refinement.{IsValid, pairs, Gives, drop-IsValid, hit_in, miss_in}

-- After `make_room` there is room, and the least recently used pair is gone if there was none.
record HasRoom (c c' : LruCache) : Type 0 where
  made : make_room c ≡ some c'
  valid : IsValid c'
  room : length c'.cache_list < c'.capacity
  kept : pairs c' ≡ (if leb c.capacity (length (pairs c)) then but_last (pairs c) else pairs c)
  same_capacity : c'.capacity ≡ c.capacity
  no_more : (k : Bytes) → node_of k c.cache_list ≡ none → node_of k c'.cache_list ≡ none

evict-HasRoom :
    (c : LruCache) (l : List Node)
    → IsValid c
    → leb c.capacity (length c.cache_list) ≡ true
    → c.cache_list ≡ l
    → (c' : LruCache) × HasRoom c c'
unfolding make_room
evict-HasRoom c [] i full e =
    let none_held : length c.cache_list ≡ 0 = ap length e in absurd (ground (arith, i.positive))
evict-HasRoom c (n ∷ l) i full e =
    let (z, last, popped, there) = back-others n l (rw e at i.unique) in
    let last' : back c.cache_list ≡ some z = ap back e ∙ last in
    let popped' : pop_back c.cache_list ≡ others z.key c.cache_list =
      ap pop_back e ∙ popped ∙ ap (others z.key) (sym e) in
    let there' : node_of z.key c.cache_list ≡ some z = ap (node_of z.key) e ∙ there in
    (
      record c { cache_list = others z.key c.cache_list; cache_map = erase z.key c.cache_map },
      record {
        made = ground (arith, full, last', popped');
        valid = drop-IsValid c z.key i;
        room = omega (arith, length-others z.key c.cache_list z i.unique there', i.bounded);
        kept =
            ground
              (arith, full, popped', but_last-pop_back c.cache_list, length-map pair c.cache_list);
        same_capacity = refl;
        no_more = λ k h. ground (arith, node_of-others k z.key c.cache_list, h);
      },
    )

make_room-HasRoom : (c : LruCache) → IsValid c → (c' : LruCache) × HasRoom c c'
unfolding make_room
make_room-HasRoom c i = elim (Bool-cases (leb c.capacity (length c.cache_list))) [
  | inr room ↦ (
    c,
    record {
      made = ground (arith, room);
      valid = i;
      room = ground (arith, room);
      kept = ground (arith, room, length-map pair c.cache_list);
      same_capacity = refl;
      no_more = λ k e. e;
    },
  )
  | inl full ↦ evict-HasRoom c c.cache_list i full refl
]

-- A new node for a key that the list does not have.
pushed : Bytes → Bytes → LruCache → LruCache
pushed k v c = record c {
  cache_list = record { address = c.next_address; key = k; value = v } ∷ c.cache_list;
  cache_map = assign k c.next_address c.cache_map;
  next_address = c.next_address + 1;
}

absent-apart :
    (k : Bytes) (l : List Node) (a : ℕ)
    → node_of k l ≡ none
    → All (λ n. n.address < a) l
    → All (λ n. (a ≢ n.address) × (k ≢ n.key)) l
unfolding node_of
absent-apart k [] a e h = tt
absent-apart k (n ∷ l) a e h = (
  (omega (arith, h.0), ground (arith, e, str_eq_iff k n.key)),
  absent-apart k l a (ground (arith, e)) h.1,
)

pushed-IsValid :
    (k v : Bytes) (c : LruCache)
    → node_of k c.cache_list ≡ none
    → length c.cache_list < c.capacity
    → IsValid c
    → IsValid (pushed k v c)
unfolding pushed node_of
pushed-IsValid k v c e room i = record {
  positive = i.positive;
  bounded = omega (arith, room);
  unique = (absent-apart k c.cache_list c.next_address e i.fresh, i.unique);
  fresh = (
    omega arith,
    All-map (λ n. n.address < c.next_address) _ (λ n h. omega arith) c.cache_list i.fresh,
  );
  indexed = λ q. ground (arith, i.indexed q, find-assign k q c.next_address c.cache_map);
}

pub create_key-Gives :
    (k v : Bytes) (c : LruCache)
    → IsValid c
    → Gives c (create_key k v c) (Spec.create c.capacity k v (pairs c))
unfolding create_key Spec.create pushed
create_key-Gives k v c i = elim (Option-cases (node_of k c.cache_list)) [
  | inr (n, found) ↦
      let (entry, value) = hit_in c k n i found in
      record {
        after = c;
        returns = ground (arith, entry, value);
        valid = i;
        contents = ground (arith, value);
        same_capacity = refl;
      }
  | inl missing ↦
      let (no_entry, no_pair) = miss_in c k i missing in
      let (c', h) = make_room-HasRoom c i in
      record {
        after = pushed k v c';
        returns = ground (arith, no_entry, no_pair, h.made);
        valid = pushed-IsValid k v c' (h.no_more k missing) h.room h.valid;
        contents = ground (arith, no_pair, h.kept);
        same_capacity = h.same_capacity;
      }
]
