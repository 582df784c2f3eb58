-- ===== src/LruCache/Nodes.antt =====
-- Lists of nodes with different addresses and different keys: the node of a key is the node of
-- its address.
use load_tester_project.Base.{
  ℕ, suc, Bool, not, List, [], ◌∷◌, map, Option, none, some, Bytes, ◌≡◌, ◌≢◌, inl, inr, refl, sym,
  ap, arith, ◌==◌, if◌then◌else◌, Bool-cases, length, select, All, All-map, All-select, select_all,
  str_eq, str_eq_iff, str_eq_sym, str_eq_refl,
}
use mathlib.Core.Option
use load_tester_project.LruCache.{
  Node, deref, without, splice, erase_node, write_value, back, pop_back, ◌>>=◌,
}
use load_tester_project.LruCache.Spec.{lookup, remove, but_last}

abbrev pub Unique : List Node → Type 0
Unique [] = Unit
Unique (n ∷ l) = All (λ m. (n.address ≢ m.address) × (n.key ≢ m.key)) l × Unique l

abbrev pub pair : Node → Bytes × Bytes
pair n = (n.key, n.value)

-- The first node with the key.
unfoldable pub node_of : Bytes → List Node → Option Node
node_of k [] = none
node_of k (n ∷ l) = if str_eq k n.key then some n else node_of k l

-- The nodes with other keys.
abbrev pub others : Bytes → List Node → List Node
others k l = select (λ n. not (str_eq k n.key)) l

pub Unique-select : (p : Node → Bool) (l : List Node) → Unique l → Unique (select p l)
Unique-select p [] u = tt
Unique-select p (n ∷ l) u = elim (Bool-cases (p n)) [
  | inl keep ↦ rw keep (All-select _ p l u.0, Unique-select p l u.1)
  | inr skip ↦ rw skip (Unique-select p l u.1)
]

pub All-node_of {κ} :
    (P : Node → Type κ) (k : Bytes) (l : List Node) (n : Node)
    → All P l
    → node_of k l ≡ some n
    → P n
unfolding node_of
All-node_of P k [] n a e = cc
All-node_of P k (m ∷ l) n a e = elim (Bool-cases (str_eq k m.key)) [
  | inl hit ↦ let same : m ≡ n = ground (arith, hit, e) in rw (← same) a.0
  | inr miss ↦ All-node_of P k l n a.1 (ground (arith, miss, e))
]

pub node_of_key : (k : Bytes) (l : List Node) (n : Node) → node_of k l ≡ some n → n.key ≡ k
unfolding node_of
node_of_key k [] n e = cc
node_of_key k (m ∷ l) n e = ground (arith, str_eq_iff k m.key, node_of_key k l n)

pub deref-node_of :
    (k : Bytes) (l : List Node) (n : Node)
    → Unique l
    → node_of k l ≡ some n
    → deref n.address l ≡ some n
unfolding node_of deref
deref-node_of k [] n u e = cc
deref-node_of k (m ∷ l) n u e = elim (Bool-cases (str_eq k m.key)) [
  | inl hit ↦ ground (arith, hit, e)
  | inr miss ↦
      let there : node_of k l ≡ some n = ground (arith, miss, e) in
      ground (arith, (All-node_of _ k l n u.0 there).0, deref-node_of k l n u.1 there)
]

-- To drop the node of an address is to drop the node of its key.
pub without-others :
    (k : Bytes) (l : List Node) (n : Node)
    → Unique l
    → node_of k l ≡ some n
    → without n.address l ≡ others k l
unfolding node_of without
without-others k [] n u e = cc
without-others k (m ∷ l) n u e = elim (Bool-cases (str_eq k m.key)) [
  | inl hit ↦
      let same : m ≡ n = ground (arith, hit, e) in
      let key : k ≡ m.key = (str_eq_iff k m.key).0 hit in
      let addresses =
        select_all _ (λ x. not (x.address == m.address)) (λ x h. ground (arith, h.0)) l u.0 in
      let keys =
        select_all _ (λ x. not (str_eq k x.key))
          (λ x h. ground (arith, h.1, str_eq_iff k x.key, key)) l u.0 in
      ground (arith, hit, same, addresses, keys)
  | inr miss ↦
      let there : node_of k l ≡ some n = ground (arith, miss, e) in
      ground (arith, miss, (All-node_of _ k l n u.0 there).0, without-others k l n u.1 there)
]

pub node_of-others :
    (q k : Bytes) (l : List Node)
    → node_of q (others k l) ≡ (if str_eq q k then none else node_of q l)
unfolding node_of
node_of-others q k [] = ground arith
node_of-others q k (m ∷ l) =
    ground (arith, str_eq_iff q k, str_eq_iff k m.key, str_eq_iff q m.key, node_of-others q k l)

-- On pairs.
pub lookup-node_of :
    (k : Bytes) (l : List Node) → lookup k (map pair l) ≡ Option.map (λ n. n.value) (node_of k l)
unfolding lookup node_of
lookup-node_of k [] = refl
lookup-node_of k (m ∷ l) = ground (arith, lookup-node_of k l)

pub remove-others : (k : Bytes) (l : List Node) → map pair (others k l) ≡ remove k (map pair l)
unfolding remove
remove-others k [] = refl
remove-others k (m ∷ l) = ground (arith, str_eq_sym k m.key, remove-others k l)

pub but_last-pop_back : (l : List Node) → map pair (pop_back l) ≡ but_last (map pair l)
unfolding pop_back but_last
but_last-pop_back [] = refl
but_last-pop_back (n ∷ []) = refl
but_last-pop_back (n ∷ m ∷ l) = ap (◌∷◌ (pair n)) (but_last-pop_back (m ∷ l))

-- The last node exists unless the list is empty, and dropping it is dropping its key.
pub back-others :
    (n : Node) (l : List Node)
    → Unique (n ∷ l)
    → (z : Node) × (back (n ∷ l) ≡ some z)
      × (pop_back (n ∷ l) ≡ others z.key (n ∷ l))
      × (node_of z.key (n ∷ l) ≡ some z)
unfolding back pop_back node_of
back-others n [] u = (n, refl, ground (arith, str_eq_refl n.key), ground (arith, str_eq_refl n.key))
back-others n (m ∷ l) u =
    let (z, last, popped, there) = back-others m l u.1 in
    let apart : n.key ≢ z.key =
      (All-node_of (λ x. n.key ≢ x.key) z.key (m ∷ l) z (All-map _ _ (λ x h. h.1) (m ∷ l) u.0)
        there) in
    (
      z,
      last,
      ground (arith, popped, str_eq_iff z.key n.key),
      ground (arith, there, str_eq_iff z.key n.key),
    )

pub length-pop_back : (n : Node) (l : List Node) → length (pop_back (n ∷ l)) ≡ length l
unfolding pop_back
length-pop_back n [] = refl
length-pop_back n (m ∷ l) = ap suc (length-pop_back m l)

-- A node of the list is one of its members, so a list that has one is longer without it.
pub length-others :
    (k : Bytes) (l : List Node) (n : Node)
    → Unique l
    → node_of k l ≡ some n
    → suc (length (others k l)) ≡ length l
unfolding node_of
length-others k [] n u e = cc
length-others k (m ∷ l) n u e = elim (Bool-cases (str_eq k m.key)) [
  | inl hit ↦
      let key : k ≡ m.key = (str_eq_iff k m.key).0 hit in
      let keys =
        select_all _ (λ x. not (str_eq k x.key))
          (λ x h. ground (arith, h.1, str_eq_iff k x.key, key)) l u.0 in
      ground (arith, hit, keys)
  | inr miss ↦ ground (arith, miss, length-others k l n u.1)
]

-- The node of a key shares neither address nor key with the others.
pub others-apart :
    (k : Bytes) (l : List Node) (n : Node)
    → Unique l
    → node_of k l ≡ some n
    → All (λ m. (n.address ≢ m.address) × (n.key ≢ m.key)) (others k l)
unfolding node_of
others-apart k [] n u e = tt
others-apart k (m ∷ l) n u e = elim (Bool-cases (str_eq k m.key)) [
  | inl hit ↦
      let same : m ≡ n = ground (arith, hit, e) in rw hit (All-select _ _ l (rw (← same) u.0))
  | inr miss ↦
      let there : node_of k l ≡ some n = ground (arith, miss, e) in
      let other = All-node_of _ k l n u.0 there in
      rw miss ((λ p. other.0 (sym p), λ p. other.1 (sym p)), others-apart k l n u.1 there)
]

pub write_value_lem :
    (it : ℕ) (v : Bytes) (l : List Node) (n : Node)
    → deref it l ≡ some n
    → (l' : List Node) × (write_value it v l ≡ some l')
      × (deref it l' ≡ some (record n { value = v }))
      × (without it l' ≡ without it l)
unfolding deref write_value without
write_value_lem it v [] n e = absurd (cc)
write_value_lem it v (m ∷ l) n e = elim (Bool-cases (m.address == it)) [
  | inl hit ↦
      (record m { value = v } ∷ l, ground (arith, hit), ground (arith, hit, e), ground (arith, hit))
  | inr miss ↦
      let (l', written, there, rest) = write_value_lem it v l n (ground (arith, miss, e)) in
      (
        m ∷ l',
        ground (arith, miss, written),
        ground (arith, miss, there),
        ground (arith, miss, rest),
      )
]

pub splice-node_of :
    (k : Bytes) (l : List Node) (n : Node)
    → Unique l
    → node_of k l ≡ some n
    → splice n.address l ≡ some (n ∷ others k l)
unfolding splice
splice-node_of k l n u e = rw (deref-node_of k l n u e, without-others k l n u e)

pub write_value-splice :
    (k v : Bytes) (l : List Node) (n : Node)
    → Unique l
    → node_of k l ≡ some n
    → (write_value n.address v l >>= λ l'. splice n.address l')
      ≡ some (record n { value = v } ∷ others k l)
unfolding splice
write_value-splice k v l n u e =
    let (l', written, there, rest) = write_value_lem n.address v l n (deref-node_of k l n u e) in
    rw written (rw (there, rest, without-others k l n u e))

pub erase_node-node_of :
    (k : Bytes) (l : List Node) (n : Node)
    → Unique l
    → node_of k l ≡ some n
    → erase_node n.address l ≡ some (others k l)
unfolding erase_node
erase_node-node_of k l n u e = rw (deref-node_of k l n u e, without-others k l n u e)
