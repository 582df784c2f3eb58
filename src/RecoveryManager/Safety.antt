-- ===== src/RecoveryManager/Safety.antt =====
-- What a recovery may do to the network.
use load_tester_project.Base.{
  List-cases, ℕ, true, false, List, [], ◌∷◌, ◌++◌, Option, none, some, Bytes, codes, ◌≡◌, ◌≢◌, ◌⊎◌,
  inl, inr, refl, ◌∙◌, arith, ◌==◌, Any, Bool-cases,
}
use load_tester_project.Base.Decimal.{ℤ, int_eq}
use load_tester_project.Base.Result.{ok}
use load_tester_project.Backend.{Backend}
use load_tester_project.Clients.{Clients, Reply}
use load_tester_project.HashRing.{is_empty}
use load_tester_project.Router.{Router, get_online_backends, get_backends_for_key}
use load_tester_project.Router.Routing.{preferred, get_backends_for_key_lem}
use load_tester_project.RecoveryManager.{
  value_in, has_port, gather, find_source, fetch_value_from_peer, write_source, copy_key, copy_keys,
  recover, c_str,
}

value_in_lem :
    (c : Clients) (res : Option Reply) (x : ℕ) (v : Bytes)
    → value_in c res ≡ x ∷ v
    → res ≡ some (record { status = 200; body = x ∷ v })
unfolding value_in
value_in_lem c none x v e = absurd (cc e)
value_in_lem c (some r) x v e = elim (Bool-cases (r.status == 200)) [
  | inl good ↦ ground (arith, good, e)
  | inr bad ↦ absurd (ground (arith, bad, e))
]

module _ (c : Clients) (target : Backend) where
  -- A replica of the key, not the target, has answered the value.
  pub record IsSource (key : Bytes) (replicas : List Backend) (value : Bytes) : Type 0 where
    pub peer : Backend
    pub is_replica : Any (λ b. b ≡ peer) replicas
    pub other : int_eq peer.port target.port ≡ false
    pub asked : c.Net
    pub answered :
        (c.get peer (c_str (codes "/kvstore/" ++ key)) asked).0
        ≡ some (record { status = 200; body = value })

  -- A write that the recovery may do: a key that the ring gives to the target, and a value that is
  -- not empty from another of its replicas.
  pub record IsWrite (hasher : Bytes → ℕ) (r : Router) (key value : Bytes) : Type 0 where
    pub replicas : List Backend
    pub routed : get_backends_for_key hasher key 2 r ≡ ok replicas
    pub owned : has_port target.port replicas ≡ true
    pub source : IsSource key replicas value
    pub filled : value ≢ []

  module _ (I : c.Net → Type 0)
      (reads : (b : Backend) (path : Bytes) (n : c.Net) → I n → I (c.get b path n).1) where
    gather-keeps :
        (port : ℤ) (nodes : List Backend) (keys : List Bytes) (n : c.Net)
        → I n
        → I (gather c port nodes keys n).1
    unfolding gather
    gather-keeps port [] keys n i = i
    gather-keeps port (node ∷ nodes) keys n i = elim (Bool-cases (int_eq node.port port)) [
      | inl own ↦ rw (own, gather) (gather-keeps port nodes keys n i)
      | inr peer ↦ rw (peer, gather) (gather-keeps port nodes _ _ (reads node _ n i))
    ]

    -- A source is a value with the state in which it was found.
    abbrev Found : Bytes → List Backend → Bytes × c.Net → Type 0
    Found key replicas s = I s.1 × ((s.0 ≡ []) ⊎ (IsSource key replicas s.0))

    wider :
        (key : Bytes) (b : Backend) (replicas : List Backend) (s : Bytes × c.Net)
        → Found key replicas s
        → Found key (b ∷ replicas) s
    wider key b replicas s (i, inl e) = (i, inl e)
    wider key b replicas s (i, inr f) = (
      i,
      inr (record {
        peer = f.peer;
        is_replica = inr f.is_replica;
        other = f.other;
        asked = f.asked;
        answered = f.answered;
      }),
    )

    find_source-Found :
        (key : Bytes) (replicas : List Backend) (n : c.Net)
        → I n
        → Found key replicas (find_source c target.port key replicas n)
    unfolding find_source
    find_source-Found key [] n i = (i, inl refl)
    find_source-Found key (b ∷ bs) n i = elim (Bool-cases (int_eq b.port target.port)) [
      | inl own ↦ rw (own, find_source) (wider key b bs _ (find_source-Found key bs n i))
      | inr peer ↦
          let asked = c.get b (c_str (codes "/kvstore/" ++ key)) n in
          let i' : I asked.1 = reads b _ n i in
          elim (List-cases (value_in c asked.0)) [
            | inl nothing ↦
                let found : find_source c target.port key (b ∷ bs) n
                    ≡ find_source c target.port key bs asked.1 =
                  unfold fetch_value_from_peer in ground (arith, peer, nothing) in
                rw found (wider key b bs _ (find_source-Found key bs asked.1 i'))
            | inr (x, v, something) ↦
                let found : find_source c target.port key (b ∷ bs) n ≡ (x ∷ v, asked.1) =
                  unfold fetch_value_from_peer in ground (arith, peer, something) in
                rw found (
                  i',
                  inr (record {
                    peer = b;
                    is_replica = inl refl;
                    other = peer;
                    asked = n;
                    answered = value_in_lem c asked.0 x v something;
                  }),
                )
          ]
    ]

    module _ (hasher : Bytes → ℕ) (r : Router)
        (writes : (key value : Bytes) (n : c.Net)
          → IsWrite hasher r key value
          → I n
          → I (c.post target (c_str (codes "/kvstore/sync/" ++ key)) value n).1) where
      write_source-keeps :
          (key : Bytes) (replicas : List Backend) (s : Bytes × c.Net)
          → get_backends_for_key hasher key 2 r ≡ ok replicas
          → has_port target.port replicas ≡ true
          → Found key replicas s
          → I (write_source c target key s)
      unfolding write_source
      write_source-keeps key replicas ([], n) e own (i, f) = i
      write_source-keeps key replicas (x ∷ v, n) e own (i, inl nothing) = absurd (cc nothing)
      write_source-keeps key replicas (x ∷ v, n) e own (i, inr f) =
          writes key (x ∷ v) n
            (record {
              replicas = replicas;
              routed = e;
              owned = own;
              source = f;
              filled = λ h. cc h;
            })
            i

      copy_key-keeps :
          (key : Bytes) (replicas : List Backend) (n : c.Net)
          → get_backends_for_key hasher key 2 r ≡ ok replicas
          → I n
          → I (copy_key c target key replicas n)
      unfolding copy_key
      copy_key-keeps key replicas n e i = elim (Bool-cases (has_port target.port replicas)) [
        | inl own ↦
            rw own (write_source-keeps key replicas _ e own (find_source-Found key replicas n i))
        | inr foreign ↦ rw foreign i
      ]

      copy_keys-keeps :
          (keys : List Bytes) (n : c.Net)
          → is_empty r.hash_ring ≡ false
          → I n
          → (n' : c.Net) × (copy_keys c hasher target r keys n ≡ ok n') × I n'
      unfolding copy_keys
      copy_keys-keeps [] n ne i = (n, refl, i)
      copy_keys-keeps (key ∷ keys) n ne i =
          let routed : get_backends_for_key hasher key 2 r ≡ ok (preferred hasher key 2 r) =
            get_backends_for_key_lem hasher key 2 r ∙ rw ne in
          let (n', e, i') = copy_keys-keeps keys _ ne (copy_key-keeps key _ n routed i) in
          (n', rw routed e, i')

      -- On a router with a ring that is not empty a recovery ends. It keeps every property of
      -- the network that GET requests keep and that its writes keep: those of a key that the
      -- ring gives to the recovered backend, with a value that is not empty and that another
      -- replica of the key has answered with status 200.
      pub recover-keeps :
          (n : c.Net)
          → is_empty r.hash_ring ≡ false
          → I n
          → (n' : c.Net) × (recover c hasher target r n ≡ ok n') × I n'
      unfolding recover
      recover-keeps n ne i =
          copy_keys-keeps (gather c target.port (get_online_backends r) [] n).0 _ ne
            (gather-keeps target.port (get_online_backends r) [] n i)
