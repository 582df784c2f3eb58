-- ===== src/HashRing/Lookup.antt =====
-- What `getNodes` returns: the key's preference list, cut at the replication factor.
use load_tester_project.Base.{
  ℕ, List, [], ◌∷◌, ◌++◌, map, some, Bytes, ◌≡◌, refl, sym, ap, ◌∙◌, arith, length, take, take-nil,
}
use load_tester_project.Base.StdMap.{lower_bound, before, before-append-lower_bound}
use load_tester_project.Base.StdSet.{
  contains, insert, count_new, contains-insert, length-insert_all, count_new-rotate,
}
use load_tester_project.Backend.{Backend, node_id, spaced_id}
use load_tester_project.Backend.Identity.{spaced_id-node_id}
use load_tester_project.HashRing.{HashRing, unique_count, get_nodes, hash_string}
use load_tester_project.HashRing.Walk.{
  Entries, backends_of, distinct, turn, preference, length-distinct, walk-turn,
}

-- The first loop counts the same backends, although it spells their names otherwise.
count_new-spaced_id :
    (s t : List Bytes) (es : Entries)
    → ((b : Backend) → contains (spaced_id b) s ≡ contains (node_id b) t)
    → count_new s (map (λ e. spaced_id e.1) es) ≡ count_new t (map node_id (backends_of es))
unfolding count_new
count_new-spaced_id s t [] h = refl
count_new-spaced_id s t (e ∷ es) h = ground (
  arith,
  h e.1,
  count_new-spaced_id s t es h,
  count_new-spaced_id (insert (spaced_id e.1) s) (insert (node_id e.1) t) es (λ b. ground (
    arith,
    h b,
    contains-insert (spaced_id b) (spaced_id e.1) s,
    contains-insert (node_id b) (node_id e.1) t,
    spaced_id-node_id b e.1,
  )),
)

names : Entries → List Bytes
names es = map node_id (backends_of es)

names-append : (xs ys : Entries) → names (xs ++ ys) ≡ names xs ++ names ys
unfolding names
names-append [] ys = refl
names-append (x ∷ xs) ys = ap (◌∷◌ (node_id x.1)) (names-append xs ys)

pub unique_count-distinct :
    (k : ℕ) (m : Entries) → length (distinct [] (backends_of (turn k m))) ≡ unique_count m
unfolding unique_count turn names contains
unique_count-distinct k m =
    length-distinct [] (backends_of (turn k m))
    ∙ ap (count_new []) (names-append (lower_bound k m) (before k m))
    ∙ count_new-rotate [] (names (lower_bound k m)) (names (before k m))
    ∙ ap (count_new []) (sym (names-append (before k m) (lower_bound k m)))
    ∙ ap (λ x. count_new [] (names x)) (before-append-lower_bound k m)
    ∙ sym (count_new-spaced_id [] [] m (λ b. refl))
    ∙ omega (arith, length-insert_all [] (map (λ e. spaced_id e.1) m))

on_ring :
    (hasher : Bytes → ℕ) (key : Bytes) (factor n : ℕ) (ring : Entries)
    → get_nodes hasher key factor (record { num_vnodes = n; ring = ring })
      ≡ some (take factor (preference hasher key (record { num_vnodes = n; ring = ring })))
unfolding get_nodes preference lower_bound before
on_ring hasher key factor n [] = ap some (sym (take-nil factor))
on_ring hasher key factor n (e ∷ m) =
    let k = hash_string hasher key in
    walk-turn (e ∷ m) k factor (unique_count (e ∷ m)) (unique_count-distinct k (e ∷ m))

module _ (hasher : Bytes → ℕ) (key : Bytes) (h : HashRing) where
  -- `getNodes` ends, never reads past the end of the map, and returns the first `factor`
  -- backends of the key's preference list: those met clockwise from the key's hash, each counted
  -- once.
  pub get_nodes-preference :
      (factor : ℕ) → get_nodes hasher key factor h ≡ some (take factor (preference hasher key h))
  get_nodes-preference factor = on_ring hasher key factor h.num_vnodes h.ring
