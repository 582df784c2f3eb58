-- ===== src/RecoveryManager/Completeness.antt =====
-- What a recovery copies, if the other backends answer the same all along.
use load_tester_project.Base.{
  ℕ, true, false, List, [], ◌∷◌, Bytes, codes, ◌≡◌, ◌≢◌, inl, inr, refl, sym, ◌∙◌, arith,
  Bool-cases, List-cases, str_eq_iff, str_eq,
}
use mathlib.Core.Path.{subst}
use load_tester_project.Base.Decimal.{int_eq}
use load_tester_project.Base.Result.{ok}
use load_tester_project.Base.StdSet.{contains}
use load_tester_project.Backend.{Backend}
use load_tester_project.Clients.{Clients}
use load_tester_project.HashRing.{is_empty}
use load_tester_project.Router.{Router, get_online_backends, get_backends_for_key}
use load_tester_project.Router.Routing.{preferred, get_backends_for_key_lem}
use load_tester_project.RecoveryManager.{
  value_in, keys_in, has_port, find_source, fetch_value_from_peer, write_source,
  write_value_to_recovered_node, copy_key, copy_keys, recover,
}
use load_tester_project.RecoveryManager.Steady.{
  IsIn, read_path, sync_path, Steady, Answers, gather-contains, find_source-Answers,
}

module _ (c : Clients) (target : Backend) (t : Steady c target) where
  -- A write of the key is among those that the target was sent, with what another replica answers.
  pub record IsCopied (key : Bytes) (replicas : List Backend) (n : c.Net) : Type 0 where
    pub value : Bytes
    pub written : IsIn (sync_path key, value) (t.writes n)
    pub source : Answers c target t key replicas value

  module _ (hasher : Bytes → ℕ) (r : Router) where
    -- The writes of `n` are still there in `n'`.
    abbrev Keeps : c.Net → c.Net → Type 0
    Keeps n n' = (w : Bytes × Bytes) → IsIn w (t.writes n) → IsIn w (t.writes n')

    Keeps-of_eq : (n n' : c.Net) → t.writes n' ≡ t.writes n → Keeps n n'
    Keeps-of_eq n n' e w m = subst (IsIn w) (sym e) m

    find_source-writes :
        (key : Bytes) (replicas : List Backend) (n : c.Net)
        → t.writes (find_source c target.port key replicas n).1 ≡ t.writes n
    unfolding find_source fetch_value_from_peer
    find_source-writes key [] n = refl
    find_source-writes key (b ∷ bs) n = elim (Bool-cases (int_eq b.port target.port)) [
      | inl own ↦ rw (own, find_source) (find_source-writes key bs n)
      | inr other ↦
          let asked = c.get b (read_path key) n in
          elim (List-cases (value_in c asked.0)) [
            | inl nothing ↦
                rw (other, find_source, nothing)
                  (find_source-writes key bs asked.1 ∙ t.get_law b _ n)
            | inr (x, v, something) ↦ rw (other, find_source, something) (t.get_law b _ n)
          ]
    ]

    write_source-Keeps : (key : Bytes) (s : Bytes × c.Net) → Keeps s.1 (write_source c target key s)
    unfolding write_source write_value_to_recovered_node
    write_source-Keeps key ([], n) w m = m
    write_source-Keeps key (x ∷ v, n) w m = rw (t.post_law (sync_path key) (x ∷ v) n) (inr m)

    copy_key-Keeps :
        (key : Bytes) (replicas : List Backend) (n : c.Net)
        → Keeps n (copy_key c target key replicas n)
    unfolding copy_key
    copy_key-Keeps key replicas n w m = elim (Bool-cases (has_port target.port replicas)) [
      | inl own ↦
          let sourced = find_source c target.port key replicas n in
          rw own (
            write_source-Keeps key sourced w
              (Keeps-of_eq n sourced.1 (find_source-writes key replicas n) w m))
      | inr foreign ↦ rw foreign m
    ]

    -- A key that the target owns and that another replica has a value of.
    record IsDue (key : Bytes) : Type 0 where
      owned : has_port target.port (preferred hasher key 2 r) ≡ true
      replica : Backend
      is_replica : IsIn replica (preferred hasher key 2 r)
      other : int_eq replica.port target.port ≡ false
      has_value : value_in c (t.answers replica (read_path key)) ≢ []

    copy_key-IsCopied :
        (key : Bytes) (n : c.Net)
        → IsDue key
        → IsCopied key
            (preferred hasher key 2 r)
            (copy_key c target key (preferred hasher key 2 r) n)
    unfolding copy_key write_source write_value_to_recovered_node
    copy_key-IsCopied key n d =
        let replicas = preferred hasher key 2 r in
        let (n', x, v, e, w, a) =
          find_source-Answers c target t key d.replica replicas n d.is_replica d.other
            d.has_value in
        record {
          value = x ∷ v;
          written = rw (d.owned, e, t.post_law (sync_path key) (x ∷ v) n') (inl refl);
          source = a;
        }

    still-IsCopied :
        (key : Bytes) (replicas : List Backend) (n n' : c.Net)
        → Keeps n n'
        → IsCopied key replicas n
        → IsCopied key replicas n'
    still-IsCopied key replicas n n' k i = record {
      value = i.value;
      written = k _ i.written;
      source = i.source;
    }

    routed :
        (key : Bytes)
        → is_empty r.hash_ring ≡ false
        → get_backends_for_key hasher key 2 r ≡ ok (preferred hasher key 2 r)
    routed key ne = get_backends_for_key_lem hasher key 2 r ∙ rw ne

    copy_keys-Keeps :
        (keys : List Bytes) (n : c.Net)
        → is_empty r.hash_ring ≡ false
        → (n' : c.Net) × (copy_keys c hasher target r keys n ≡ ok n') × Keeps n n'
    unfolding copy_keys
    copy_keys-Keeps [] n ne = (n, refl, λ w m. m)
    copy_keys-Keeps (key ∷ keys) n ne =
        let (n', e, k) =
          copy_keys-Keeps keys (copy_key c target key (preferred hasher key 2 r) n) ne in
        (n', rw (routed key ne) e, λ w m. k w (copy_key-Keeps key _ n w m))

    copy_keys-IsCopied :
        (key : Bytes) (keys : List Bytes) (n : c.Net)
        → is_empty r.hash_ring ≡ false
        → contains key keys ≡ true
        → IsDue key
        → (n' : c.Net) × (copy_keys c hasher target r keys n ≡ ok n')
          × IsCopied key (preferred hasher key 2 r) n'
    unfolding copy_keys contains
    copy_keys-IsCopied key [] n ne m d = absurd (cc m)
    copy_keys-IsCopied key (first ∷ keys) n ne m d =
        let after = copy_key c target first (preferred hasher first 2 r) n in
        elim (Bool-cases (str_eq key first)) [
          | inl same ↦
              let is : key ≡ first = (str_eq_iff key first).0 same in
              let (n', e, k) = copy_keys-Keeps keys after ne in
              let now =
                subst
                  (λ x.
                    IsCopied key (preferred hasher key 2 r)
                      (copy_key c target x (preferred hasher x 2 r) n))
                  is (copy_key-IsCopied key n d) in
              (n', rw (routed first ne) e, still-IsCopied key _ after n' k now)
          | inr differs ↦
              let (n', e, i) =
                copy_keys-IsCopied key keys after ne (ground (arith, differs, m)) d in
              (n', rw (routed first ne) e, i)
        ]

    -- On a router with a ring that is not empty, while the other backends keep their answers: a
    -- key that an UP backend lists, that the ring gives to the recovered backend, and of which
    -- another replica has a value, is copied. The recovery ends, and among the writes that the
    -- recovered backend was sent is one of that key, with a value that is not empty and that
    -- another replica of the key answers.
    pub recover-IsCopied :
        (key : Bytes) (peer replica : Backend) (n : c.Net)
        → is_empty r.hash_ring ≡ false
        → IsIn peer (get_online_backends r)
        → int_eq peer.port target.port ≡ false
        → contains key (keys_in c (t.answers peer (codes "/kvstore/allkeys"))) ≡ true
        → has_port target.port (preferred hasher key 2 r) ≡ true
        → IsIn replica (preferred hasher key 2 r)
        → int_eq replica.port target.port ≡ false
        → value_in c (t.answers replica (read_path key)) ≢ []
        → (n' : c.Net) × (recover c hasher target r n ≡ ok n')
          × IsCopied key (preferred hasher key 2 r) n'
    unfolding recover
    recover-IsCopied key peer replica n ne online apart listed owned is_replica other has_value =
        copy_keys-IsCopied key _ _ ne
          (gather-contains c target t key peer (get_online_backends r) [] n online apart listed)
          (record {
            owned = owned;
            replica = replica;
            is_replica = is_replica;
            other = other;
            has_value = has_value;
          })
