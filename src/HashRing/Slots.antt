-- ===== src/HashRing/Slots.antt =====
-- What `add_node` and `remove_node` do to the entries of the ring.
use load_tester_project.Base.{
  ℕ, zero, suc, ◌+◌, Bool, true, false, not, ◌||◌, [], ◌∷◌, none, some, Bytes, ◌≡◌, refl, sym, ◌∙◌,
  arith, ◌==◌, if◌then◌else◌, Bool-cases, inl, inr, select, select-true, select-select, All,
}
use load_tester_project.Base.StdMap.{
  find, assign, erase, IsSorted, find-assign, find-erase, assign-IsSorted, erase-IsSorted, map_ext,
  All-assign,
}
use load_tester_project.Backend.{Backend, node_id}
use load_tester_project.Backend.Identity.{SameAddress, node_id-eq}
use load_tester_project.HashRing.{
  HashRing, hash_string, vnode_key, add_vnodes, remove_vnodes, add_node, remove_node,
}
use load_tester_project.HashRing.Walk.{Entries}

module _ (hasher : Bytes → ℕ) where
  -- `k` is the hash of one of the virtual nodes `i`, ..., `i + rounds - 1` of the node.
  unfoldable pub owns_from : ℕ → ℕ → Backend → ℕ → Bool
  owns_from zero i node k = false
  owns_from (suc rounds) i node k =
      k == hash_string hasher (vnode_key node i) || owns_from rounds (i + 1) node k

  find-add_vnodes :
      (rounds i : ℕ) (node : Backend) (m : Entries) (k : ℕ)
      → find k (add_vnodes hasher rounds i node m)
        ≡ (if owns_from rounds i node k then some node else find k m)
  unfolding add_vnodes owns_from
  find-add_vnodes zero i node m k = refl
  find-add_vnodes (suc rounds) i node m k = ground (
    arith,
    find-add_vnodes rounds (i + 1) node (assign (hash_string hasher (vnode_key node i)) node m) k,
    find-assign (hash_string hasher (vnode_key node i)) k node m,
  )

  find-remove_vnodes :
      (rounds i : ℕ) (node : Backend) (m : Entries) (k : ℕ)
      → find k (remove_vnodes hasher rounds i node m)
        ≡ (if owns_from rounds i node k then none else find k m)
  unfolding remove_vnodes owns_from
  find-remove_vnodes zero i node m k = refl
  find-remove_vnodes (suc rounds) i node m k = ground (
    arith,
    find-remove_vnodes rounds (i + 1) node (erase (hash_string hasher (vnode_key node i)) m) k,
    find-erase (hash_string hasher (vnode_key node i)) k m,
  )

  add_vnodes-IsSorted :
      (rounds i : ℕ) (node : Backend) (m : Entries)
      → IsSorted m
      → IsSorted (add_vnodes hasher rounds i node m)
  unfolding add_vnodes
  add_vnodes-IsSorted zero i node m s = s
  add_vnodes-IsSorted (suc rounds) i node m s =
      add_vnodes-IsSorted rounds (i + 1) node _
        (assign-IsSorted (hash_string hasher (vnode_key node i)) node m s)

  remove_vnodes-IsSorted :
      (rounds i : ℕ) (node : Backend) (m : Entries)
      → IsSorted m
      → IsSorted (remove_vnodes hasher rounds i node m)
  unfolding remove_vnodes
  remove_vnodes-IsSorted zero i node m s = s
  remove_vnodes-IsSorted (suc rounds) i node m s =
      remove_vnodes-IsSorted rounds (i + 1) node _
        (erase-IsSorted (hash_string hasher (vnode_key node i)) m s)

  remove_vnodes-select :
      (rounds i : ℕ) (node : Backend) (m : Entries)
      → remove_vnodes hasher rounds i node m ≡ select (λ e. not (owns_from rounds i node e.0)) m
  unfolding remove_vnodes owns_from
  remove_vnodes-select zero i node m = sym (select-true _ (λ e. refl) m)
  remove_vnodes-select (suc rounds) i node m =
      remove_vnodes-select rounds (i + 1) node _
      ∙ unfold erase in select-select _ _ _ (λ e. ground arith) m

  -- `k` is the hash of a virtual node of `node`, on the ring `h`.
  unfoldable pub owns : HashRing → Backend → ℕ → Bool
  unfolding owns_from
  owns h node k = owns_from h.num_vnodes 0 node k

  pub find-add_node :
      (node : Backend) (h : HashRing) (k : ℕ)
      → find k (add_node hasher node h).ring ≡ (if owns h node k then some node else find k h.ring)
  unfolding add_node owns
  find-add_node node h k = find-add_vnodes h.num_vnodes 0 node h.ring k

  pub find-remove_node :
      (node : Backend) (h : HashRing) (k : ℕ)
      → find k (remove_node hasher node h).ring ≡ (if owns h node k then none else find k h.ring)
  unfolding remove_node owns
  find-remove_node node h k = find-remove_vnodes h.num_vnodes 0 node h.ring k

  pub remove_node-select :
      (node : Backend) (h : HashRing)
      → (remove_node hasher node h).ring ≡ select (λ e. not (owns h node e.0)) h.ring
  unfolding remove_node owns
  remove_node-select node h = remove_vnodes-select h.num_vnodes 0 node h.ring

  pub add_node-IsSorted :
      (node : Backend) (h : HashRing) → IsSorted h.ring → IsSorted (add_node hasher node h).ring
  unfolding add_node
  add_node-IsSorted node h s = add_vnodes-IsSorted h.num_vnodes 0 node h.ring s

  pub remove_node-IsSorted :
      (node : Backend) (h : HashRing) → IsSorted h.ring → IsSorted (remove_node hasher node h).ring
  unfolding remove_node
  remove_node-IsSorted node h s = remove_vnodes-IsSorted h.num_vnodes 0 node h.ring s

  -- Neither method changes the number of virtual nodes, so the slots of a node stay the same.
  pub num_vnodes-add_node :
      (node : Backend) (h : HashRing) → (add_node hasher node h).num_vnodes ≡ h.num_vnodes
  unfolding add_node
  num_vnodes-add_node node h = refl

  pub num_vnodes-remove_node :
      (node : Backend) (h : HashRing) → (remove_node hasher node h).num_vnodes ≡ h.num_vnodes
  unfolding remove_node
  num_vnodes-remove_node node h = refl

  owns_same :
      (h h' : HashRing) (node : Backend) (k : ℕ)
      → h'.num_vnodes ≡ h.num_vnodes
      → owns h' node k ≡ owns h node k
  unfolding owns
  owns_same h h' node k e = rw e

  pub owns-add_node :
      (b node : Backend) (h : HashRing) (k : ℕ) → owns (add_node hasher b h) node k ≡ owns h node k
  owns-add_node b node h k = owns_same h (add_node hasher b h) node k (num_vnodes-add_node b h)

  pub owns-remove_node :
      (b node : Backend) (h : HashRing) (k : ℕ)
      → owns (remove_node hasher b h) node k ≡ owns h node k
  owns-remove_node b node h k =
      owns_same h (remove_node hasher b h) node k (num_vnodes-remove_node b h)

  All-add_vnodes {κ} :
      (P : ℕ × Backend → Type κ) (rounds i : ℕ) (node : Backend) (m : Entries)
      → ((k : ℕ) → owns_from rounds i node k ≡ true → P (k, node))
      → All P m
      → All P (add_vnodes hasher rounds i node m)
  unfolding add_vnodes owns_from
  All-add_vnodes P zero i node m p a = a
  All-add_vnodes P (suc rounds) i node m p a =
      let k = hash_string hasher (vnode_key node i) in
      All-add_vnodes P rounds (i + 1) node (assign k node m) (λ j o. p j (ground arith))
        (All-assign P k node m (p k (ground arith)) a)

  -- After an addition each entry is an old one, or the node on one of its slots.
  pub All-add_node {κ} :
      (P : ℕ × Backend → Type κ) (node : Backend) (h : HashRing)
      → ((k : ℕ) → owns h node k ≡ true → P (k, node))
      → All P h.ring
      → All P (add_node hasher node h).ring
  unfolding add_node owns
  All-add_node P node h p a = All-add_vnodes P h.num_vnodes 0 node h.ring p a

  -- After a removal each entry is an old one, and no slot of the node.
  pub All-remove_node {κ ν} :
      (P : ℕ × Backend → Type κ) (Q : ℕ × Backend → Type ν) (node : Backend) (h : HashRing)
      → ((e : ℕ × Backend) → P e → owns h node e.0 ≡ false → Q e)
      → All P h.ring
      → All Q (remove_node hasher node h).ring
  All-remove_node P Q node h f a = rw (remove_node-select node h) (kept h.ring a)
    where
      kept : (m : Entries) → All P m → All Q (select (λ e. not (owns h node e.0)) m)
      kept [] a = tt
      kept (e ∷ m) a = elim (Bool-cases (owns h node e.0)) [
        | inl slot ↦ rw slot (kept m a.1)
        | inr free ↦ rw free (f e a.0 free, kept m a.1)
      ]

  -- The slots of a node depend on its address alone.
  owns_from_address :
      (rounds i : ℕ) (a b : Backend) (k : ℕ)
      → node_id a ≡ node_id b
      → owns_from rounds i a k ≡ owns_from rounds i b k
  unfolding owns_from vnode_key
  owns_from_address zero i a b k e = refl
  owns_from_address (suc rounds) i a b k e = rw (e, owns_from_address rounds (i + 1) a b k e)

  pub owns_address :
      (h : HashRing) (a b : Backend) (k : ℕ) → SameAddress a b → owns h a k ≡ owns h b k
  unfolding owns
  owns_address h a b k same = owns_from_address h.num_vnodes 0 a b k (node_id-eq a b same)

  -- Rings of one size with the same lookups are the same.
  ring_ext :
      (h h' : HashRing)
      → h.num_vnodes ≡ h'.num_vnodes
      → IsSorted h.ring
      → IsSorted h'.ring
      → ((k : ℕ) → find k h.ring ≡ find k h'.ring)
      → h ≡ h'
  ring_ext h h' n s s' e =
      let same : h.ring ≡ h'.ring = map_ext h.ring h'.ring s s' e in
      λ i. record { num_vnodes = n i; ring = same i }

  -- Removing a node from a sorted ring undoes adding it, if its slots were free.
  pub remove_node-add_node :
      (node : Backend) (h : HashRing)
      → IsSorted h.ring
      → ((k : ℕ) → owns h node k ≡ true → find k h.ring ≡ none)
      → remove_node hasher node (add_node hasher node h) ≡ h
  remove_node-add_node node h s free =
      let once = add_node hasher node h in
      ring_ext _ _ (num_vnodes-remove_node node once ∙ num_vnodes-add_node node h)
        (remove_node-IsSorted node once (add_node-IsSorted node h s)) s
        (λ k. ground (
          arith,
          find-remove_node node once k,
          find-add_node node h k,
          owns-add_node node node h k,
          free k,
        ))
