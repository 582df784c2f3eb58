-- ===== src/HashRing/Disruption.antt =====
-- Consistent hashing: what a node that joins or leaves changes in the preference lists.
use load_tester_project.Base.{
  ℕ, Bool, true, false, not, List, [], ◌∷◌, none, Bytes, ◌≡◌, inl, inr, refl, sym, ap, ◌∙◌, arith,
  Bool-cases, str_eq, str_eq_iff, All, All-select, select, select_comm, select-append, select_agree,
  leb, ltb, ◌<◌,
}
use load_tester_project.Base.StdMap.{find, IsSorted, lower_bound-select, before-select}
use load_tester_project.Base.StdSet.{contains, insert, contains-insert}
use load_tester_project.Backend.{Backend, node_id}
use load_tester_project.HashRing.{HashRing, hash_string, add_node, remove_node}
use load_tester_project.HashRing.Slots.{
  owns, remove_node-select, remove_node-add_node, add_node-IsSorted,
}
use load_tester_project.HashRing.Walk.{Entries, backends_of, distinct, turn, preference}

-- `b` is another backend than `node`.
unfoldable pub is_other : Backend → Backend → Bool
is_other node b = not (str_eq (node_id b) (node_id node))

select-IsSorted : (p : ℕ × Backend → Bool) (m : Entries) → IsSorted m → IsSorted (select p m)
select-IsSorted p [] s = tt
select-IsSorted p (e ∷ m) s = elim (Bool-cases (p e)) [
  | inl keep ↦ rw keep (All-select (λ x. e.0 < x.0) p m s.0, select-IsSorted p m s.1)
  | inr skip ↦ rw skip (select-IsSorted p m s.1)
]

-- On a sorted ring one may select before or after the turn.
turn-select :
    (p : ℕ × Backend → Bool) (k : ℕ) (m : Entries)
    → IsSorted m
    → turn k (select p m) ≡ select p (turn k m)
unfolding turn
turn-select p k m s =
    rw
      (
        lower_bound-select k (select p m) (select-IsSorted p m s),
        before-select k (select p m) (select-IsSorted p m s),
        lower_bound-select k m s,
        before-select k m s,
      )
      (rw (select-append, select_comm p (λ e. leb k e.0) m, select_comm p (λ e. ltb e.0 k) m))

backends_of-select :
    (p : Backend → Bool) (es : Entries)
    → backends_of (select (λ e. p e.1) es) ≡ select p (backends_of es)
backends_of-select p [] = refl
backends_of-select p (e ∷ es) = ground (arith, backends_of-select p es)

other_differs :
    (node b c : Backend)
    → is_other node b ≡ false
    → is_other node c ≡ true
    → str_eq (node_id c) (node_id b) ≡ false
unfolding is_other
other_differs node b c h k = ground (
  arith,
  str_eq_iff (node_id b) (node_id node),
  str_eq_iff (node_id c) (node_id node),
  str_eq_iff (node_id c) (node_id b),
)

insert_agrees :
    (b c : Backend) (s t : List Bytes)
    → contains (node_id c) s ≡ contains (node_id c) t
    → contains (node_id c) (insert (node_id b) s) ≡ contains (node_id c) (insert (node_id b) t)
insert_agrees b c s t h =
    ground
      (arith, contains-insert (node_id c) (node_id b) s, contains-insert (node_id c) (node_id b) t)

insert_ignored :
    (node b c : Backend) (s t : List Bytes)
    → is_other node b ≡ false
    → is_other node c ≡ true
    → contains (node_id c) s ≡ contains (node_id c) t
    → contains (node_id c) s ≡ contains (node_id c) (insert (node_id b) t)
insert_ignored node b c s t same other h =
    ground (arith, contains-insert (node_id c) (node_id b) t, other_differs node b c same other)

-- Dropping a backend from the row drops it from the distinct ones, and no other.
distinct-select :
    (node : Backend) (s t : List Bytes) (bs : List Backend)
    → ((b : Backend) → is_other node b ≡ true → contains (node_id b) s ≡ contains (node_id b) t)
    → distinct s (select (is_other node) bs) ≡ select (is_other node) (distinct t bs)
unfolding distinct
distinct-select node s t [] h = refl
distinct-select node s t (b ∷ bs) h = elim (Bool-cases (is_other node b)) [
  | inl other ↦ ground (
    arith,
    other,
    h b other,
    distinct-select node s t bs h,
    distinct-select node (insert (node_id b) s) (insert (node_id b) t) bs
        (λ c k. insert_agrees b c s t (h c k)),
  )
  | inr same ↦ ground (
    arith,
    same,
    distinct-select node s t bs h,
    distinct-select node s (insert (node_id b) t) bs
        (λ c k. insert_ignored node b c s t same k (h c k)),
  )
]

module _ (hasher : Bytes → ℕ) where
  -- The slots of `node` hold `node`, and it stands nowhere else: no hash collision involves it.
  abbrev pub IsClean : Backend → HashRing → Type 0
  IsClean node h = All (λ e. owns hasher h node e.0 ≡ str_eq (node_id e.1) (node_id node)) h.ring

  -- When a node leaves a sorted ring on which its slots hold that node alone and no other slot
  -- holds it, every key's preference list loses that node and is otherwise unchanged.
  pub preference-remove_node :
      (node : Backend) (h : HashRing) (key : Bytes)
      → IsSorted h.ring
      → IsClean node h
      → preference hasher key (remove_node hasher node h)
        ≡ select (is_other node) (preference hasher key h)
  unfolding preference is_other
  preference-remove_node node h key s clean =
      let k = hash_string hasher key in
      rw (remove_node-select hasher node h) (
        rw
          (select_agree _ (λ e. not (owns hasher h node e.0)) (λ e. is_other node e.1)
            (λ e c. ap not c) h.ring clean)
          (rw (turn-select (λ e. is_other node e.1) k h.ring s) (
            rw (backends_of-select (is_other node) (turn k h.ring))
              (distinct-select node [] [] _ (λ b o. refl)))))

  -- When a node whose address is not on a sorted ring joins it on free slots, every key's
  -- preference list without that node is the list there was before.
  pub preference-add_node :
      (node : Backend) (h : HashRing) (key : Bytes)
      → IsSorted h.ring
      → ((k : ℕ) → owns hasher h node k ≡ true → find k h.ring ≡ none)
      → IsClean node (add_node hasher node h)
      → select (is_other node) (preference hasher key (add_node hasher node h))
        ≡ preference hasher key h
  preference-add_node node h key s free clean =
      sym (
        preference-remove_node node (add_node hasher node h) key (add_node-IsSorted hasher node h s)
          clean)
      ∙ ap (preference hasher key) (remove_node-add_node hasher node h s free)
