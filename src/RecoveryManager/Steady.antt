-- ===== src/RecoveryManager/Steady.antt =====
-- The answers of the other backends to a recovery, if they stay the same all along.
use load_tester_project.Base.{
  ℕ, true, false, List, [], ◌∷◌, ◌++◌, Option, Bytes, codes, ◌≡◌, ◌≢◌, inl, inr, refl, sym, ap, ◌∙◌,
  arith, Any, Bool-cases, List-cases,
}
use load_tester_project.Base.Decimal.{int_eq}
use load_tester_project.Base.StdSet.{contains, contains-insert_all_old, contains-insert_all_new}
use load_tester_project.Base.Streams.{c_str}
use load_tester_project.Backend.{Backend}
use load_tester_project.Clients.{Clients, Reply}
use load_tester_project.RecoveryManager.{
  value_in, keys_in, gather, find_source, fetch_value_from_peer, fetch_all_keys_from_node,
}

abbrev pub read_path : Bytes → Bytes
read_path key = c_str (codes "/kvstore/" ++ key)

abbrev pub sync_path : Bytes → Bytes
sync_path key = c_str (codes "/kvstore/sync/" ++ key)

abbrev pub IsIn : {A : Type 0} → A → List A → Type 0
IsIn x xs = Any (λ y. y ≡ x) xs

-- The other backends answer `answers`, whenever they are asked, and `writes` observes the writes that
-- the target is sent, the last one first.
pub record Steady (c : Clients) (target : Backend) : Type 0 where
  pub answers : Backend → Bytes → Option Reply
  pub writes : c.Net → List (Bytes × Bytes)
  pub answers_law :
      (b : Backend) (path : Bytes) (n : c.Net)
      → int_eq b.port target.port ≡ false
      → (c.get b path n).0 ≡ answers b path
  pub get_law : (b : Backend) (path : Bytes) (n : c.Net) → writes (c.get b path n).1 ≡ writes n
  pub post_law :
      (path value : Bytes) (n : c.Net)
      → writes (c.post target path value n).1 ≡ (path, value) ∷ writes n

module _ (c : Clients) (target : Backend) (t : Steady c target) where
  -- A replica of the key, not the target, that answers the value.
  pub record Answers (key : Bytes) (replicas : List Backend) (value : Bytes) : Type 0 where
    pub peer : Backend
    pub is_replica : IsIn peer replicas
    pub other : int_eq peer.port target.port ≡ false
    pub answered : value_in c (t.answers peer (read_path key)) ≡ value
    pub filled : value ≢ []

  gather-writes :
      (nodes : List Backend) (keys : List Bytes) (n : c.Net)
      → t.writes (gather c target.port nodes keys n).1 ≡ t.writes n
  unfolding gather fetch_all_keys_from_node
  gather-writes [] keys n = refl
  gather-writes (node ∷ nodes) keys n = elim (Bool-cases (int_eq node.port target.port)) [
    | inl own ↦ rw (own, gather) (gather-writes nodes keys n)
    | inr peer ↦ rw (peer, gather) (gather-writes nodes _ _ ∙ t.get_law node _ n)
  ]

  gather-keeps_keys :
      (key : Bytes) (nodes : List Backend) (keys : List Bytes) (n : c.Net)
      → contains key keys ≡ true
      → contains key (gather c target.port nodes keys n).0 ≡ true
  unfolding gather
  gather-keeps_keys key [] keys n h = h
  gather-keeps_keys key (node ∷ nodes) keys n h = elim (Bool-cases (int_eq node.port target.port)) [
    | inl own ↦ rw (own, gather) (gather-keeps_keys key nodes keys n h)
    | inr peer ↦
        rw (peer, gather) (gather-keeps_keys key nodes _ _ (contains-insert_all_old key keys _ h))
  ]

  pub gather-contains :
      (key : Bytes) (peer : Backend) (nodes : List Backend) (keys : List Bytes) (n : c.Net)
      → IsIn peer nodes
      → int_eq peer.port target.port ≡ false
      → contains key (keys_in c (t.answers peer (codes "/kvstore/allkeys"))) ≡ true
      → contains key (gather c target.port nodes keys n).0 ≡ true
  unfolding gather fetch_all_keys_from_node
  gather-contains key peer [] keys n m o h = absurd m
  gather-contains key peer (node ∷ nodes) keys n (inl same) o h =
      let other : int_eq node.port target.port ≡ false =
        ap (λ b. int_eq b.port target.port) same ∙ o in
      let told =
        t.answers_law node (codes "/kvstore/allkeys") n other
        ∙ ap (λ b. t.answers b (codes "/kvstore/allkeys")) same in
      rw (other, gather)
        (gather-keeps_keys key nodes _ _ (contains-insert_all_new key keys _ (rw told h)))
  gather-contains key peer (node ∷ nodes) keys n (inr m) o h =
      elim (Bool-cases (int_eq node.port target.port)) [
        | inl own ↦ rw (own, gather) (gather-contains key peer nodes keys n m o h)
        | inr other ↦ rw (other, gather) (gather-contains key peer nodes _ _ m o h)
      ]

  wider :
      (key : Bytes) (b : Backend) (replicas : List Backend) (v : Bytes)
      → Answers key replicas v
      → Answers key (b ∷ replicas) v
  wider key b replicas v a = record {
    peer = a.peer;
    is_replica = inr a.is_replica;
    other = a.other;
    answered = a.answered;
    filled = a.filled;
  }

  -- The first replica with a value.
  pub find_source-Answers :
      (key : Bytes) (replica : Backend) (replicas : List Backend) (n : c.Net)
      → IsIn replica replicas
      → int_eq replica.port target.port ≡ false
      → value_in c (t.answers replica (read_path key)) ≢ []
      → (n' : c.Net) × (x : ℕ) × (v : Bytes) × (find_source c target.port key replicas n
          ≡ (x ∷ v, n'))
        × (t.writes n' ≡ t.writes n)
        × Answers key replicas (x ∷ v)
  unfolding find_source fetch_value_from_peer
  find_source-Answers key replica [] n m o f = absurd m
  find_source-Answers key replica (b ∷ bs) n m o f = elim (Bool-cases (int_eq b.port target.port)) [
    | inl own ↦
        let (n', x, v, e, w, a) = find_source-Answers key replica bs n (later own m) o f in
        (n', x, v, ground (arith, own, e), w, wider key b bs _ a)
    | inr other ↦
        let asked = c.get b (read_path key) n in
        let told = t.answers_law b (read_path key) n other in
        elim (List-cases (value_in c asked.0)) [
          | inl nothing ↦
              let (n', x, v, e, w, a) =
                find_source-Answers key replica bs asked.1 (silent told nothing m) o f in
              (n', x, v, ground (arith, other, nothing, e), w ∙ t.get_law b _ n, wider key b bs _ a)
          | inr (x, v, something) ↦ (
            asked.1,
            x,
            v,
            ground (arith, other, something),
            t.get_law b _ n,
            record {
              peer = b;
              is_replica = inl refl;
              other = other;
              answered = ap (value_in c) (sym told) ∙ something;
              filled = λ h. cc h;
            },
          )
        ]
  ]
    where
      later : int_eq b.port target.port ≡ true → IsIn replica (b ∷ bs) → IsIn replica bs
      later own (inl same) =
          absurd (ground (arith, ap (λ y. int_eq y.port target.port) same, own, o))
      later own (inr k) = k

      silent :
          (c.get b (read_path key) n).0 ≡ t.answers b (read_path key)
          → value_in c (c.get b (read_path key) n).0 ≡ []
          → IsIn replica (b ∷ bs)
          → IsIn replica bs
      silent told nothing (inl same) = absurd (
          f (
            ap (λ y. value_in c (t.answers y (read_path key))) (sym same)
            ∙ ap (value_in c) (sym told)
            ∙ nothing))
      silent told nothing (inr k) = k
