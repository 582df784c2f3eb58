-- ===== src/HealthChecker/Moves.antt =====
-- What the health checker does with one backend: the entry it changes, and the steps of the router.
use load_tester_project.Base.{
  ℕ, zero, suc, ◌<◌, Bool, true, false, List, [], ◌∷◌, some, Bytes, ◌≡◌, inl, inr, refl, ap, ◌∙◌,
  arith, if◌then◌else◌, Bool-cases, ==_iff, ◌⊎◌,
}
use load_tester_project.Base.Decimal.{ℤ, int_eq, int_eq_iff}
use mathlib.Core.Path.{subst}
use load_tester_project.Base.Result.{ok}
use load_tester_project.Base.UnorderedMap.{find, find-assign, int_keys, keys, keys-assign}
use load_tester_project.Base.StdMap as Map
use load_tester_project.Backend.{Backend, BackendStatus, up, recovering, down}
use load_tester_project.Clients.{Clients}
use load_tester_project.HashRing.{HashRing, is_empty, add_node, hash_string, vnode_key}
use load_tester_project.HashRing.Slots.{
  owns, owns_from, find-add_node, num_vnodes-add_node, num_vnodes-remove_node,
}
use load_tester_project.Router.{
  Router, is_up, is_recovering, mark_backend_recovering, mark_backend_up, mark_backend_down,
}
use load_tester_project.Router.Reach.{Reach, here, next, recovers, comes_up, goes_down, Reach-trans}
use load_tester_project.RecoveryManager.Safety.{recover-keeps}
use load_tester_project.HealthChecker.{is_down, judge}

-- The status that the answer to the ping asks for.
abbrev pub verdict : Bool → BackendStatus → BackendStatus
verdict false status = down
verdict true down = up
verdict true up = up
verdict true recovering = recovering

Status-cases : (s : BackendStatus) → (s ≡ up) ⊎ ((s ≡ recovering) ⊎ (s ≡ down))
Status-cases up = inl refl
Status-cases recovering = inr (inl refl)
Status-cases down = inr (inr refl)

restated : (b : Backend) (s : BackendStatus) → b.status ≡ s → b ≡ record b { status = s }
restated b s e = λ i. record b { status = e i }

module _ (hasher : Bytes → ℕ) where
  owns_first :
      (node : Backend) (h : HashRing)
      → 0 < h.num_vnodes
      → owns hasher h node (hash_string hasher (vnode_key node 0)) ≡ true
  unfolding owns owns_from
  owns_first node h some_nodes = first h.num_vnodes some_nodes
    where
      first :
          (n : ℕ) → 0 < n → owns_from hasher n 0 node (hash_string hasher (vnode_key node 0)) ≡ true
      first zero p = absurd (omega arith)
      first (suc n) p = ground (
        arith,
        ==_iff (hash_string hasher (vnode_key node 0)) (hash_string hasher (vnode_key node 0)),
      )

  found_in : (h : HashRing) (k : ℕ) (b : Backend) → Map.find k h.ring ≡ some b → is_empty h ≡ false
  unfolding is_empty Map.find
  found_in h k b e = filled h.ring e
    where
      filled :
          (m : List (ℕ × Backend))
          → Map.find k m ≡ some b
          → (elim m [ [] ↦ true | _ ↦ false ]) ≡ false
      filled [] f = absurd (cc f)
      filled (x ∷ m) f = refl

  is_empty-add_node :
      (node : Backend) (h : HashRing) → 0 < h.num_vnodes → is_empty (add_node hasher node h) ≡ false
  is_empty-add_node node h p =
      let k = hash_string hasher (vnode_key node 0) in
      found_in (add_node hasher node h) k node
        (find-add_node hasher node h k ∙ rw (owns_first node h p))

  -- Entry `b` of the router became `b'`, and nothing else changed in its map.
  pub record Moves (r : Router) (b : Backend) (b' : Backend) (r' : Router) : Type 0 where
    pub reached : Reach hasher r r'
    pub vnodes : r'.hash_ring.num_vnodes ≡ r.hash_ring.num_vnodes
    pub ports : keys r'.backends ≡ keys r.backends
    pub entries :
        (q : ℤ) → find q r'.backends ≡ (if int_eq q b.port then some b' else find q r.backends)

  up_Moves :
      (r : Router) (b : Backend)
      → find b.port r.backends ≡ some b
      → Moves r b (record b { status = up }) (mark_backend_up hasher b.port r)
  up_Moves r b e = record {
    reached = next here (comes_up b.port r);
    vnodes =
        unfold mark_backend_up in
        rw (e, mark_backend_up) (num_vnodes-add_node hasher (record b { status = up }) r.hash_ring);
    ports =
        unfold mark_backend_up in
        rw (e, mark_backend_up) (keys-assign b.port (record b { status = up }) b r.backends e);
    entries = λ q.
        unfold mark_backend_up in
        rw (e, mark_backend_up) (find-assign b.port q (record b { status = up }) r.backends);
  }

  recovering_Moves :
      (r : Router) (b : Backend)
      → find b.port r.backends ≡ some b
      → Moves r b (record b { status = recovering }) (mark_backend_recovering hasher b.port r)
  recovering_Moves r b e = record {
    reached = next here (recovers b.port r);
    vnodes =
        unfold mark_backend_recovering in
        rw (e, mark_backend_recovering)
          (num_vnodes-add_node hasher (record b { status = recovering }) r.hash_ring);
    ports =
        unfold mark_backend_recovering in
        rw (e, mark_backend_recovering)
          (keys-assign b.port (record b { status = recovering }) b r.backends e);
    entries = λ q.
        unfold mark_backend_recovering in
        rw (e, mark_backend_recovering)
          (find-assign b.port q (record b { status = recovering }) r.backends);
  }

  down_Moves :
      (r : Router) (b : Backend)
      → find b.port r.backends ≡ some b
      → Moves r b (record b { status = down }) (mark_backend_down hasher b.port r)
  down_Moves r b e = record {
    reached = next here (goes_down b.port r);
    vnodes =
        unfold mark_backend_down in
        rw (e, mark_backend_down)
          (num_vnodes-remove_node hasher (record b { status = down }) r.hash_ring);
    ports =
        unfold mark_backend_down in
        rw (e, mark_backend_down) (keys-assign b.port (record b { status = down }) b r.backends e);
    entries = λ q.
        unfold mark_backend_down in
        rw (e, mark_backend_down) (find-assign b.port q (record b { status = down }) r.backends);
  }

  stays : (r : Router) (b : Backend) → find b.port r.backends ≡ some b → Moves r b b r
  stays r b e = record {
    reached = here;
    vnodes = refl;
    ports = refl;
    entries = λ q. elim (Bool-cases (int_eq q b.port)) [
      | inl same ↦ rw (same, (int_eq_iff q b.port).0 same) e
      | inr other ↦ rw other refl
    ];
  }

  then_Moves :
      (r s t : Router) (b m l : Backend)
      → m.port ≡ b.port
      → Moves r b m s
      → Moves s m l t
      → Moves r b l t
  then_Moves r s t b m l port p q = record {
    reached = Reach-trans p.reached q.reached;
    vnodes = q.vnodes ∙ p.vnodes;
    ports = q.ports ∙ p.ports;
    entries = λ k. ground (arith, q.entries k, p.entries k, ap (int_eq k) port);
  }

  keeps :
      (r : Router) (b : Backend) (s : BackendStatus)
      → find b.port r.backends ≡ some b
      → b.status ≡ s
      → Moves r b (record b { status = s }) r
  keeps r b s e h = subst (λ x. Moves r b x r) (restated b s h) (stays r b e)

  rejoined :
      (r : Router) (b : Backend)
      → 0 < r.hash_ring.num_vnodes
      → find b.port r.backends ≡ some b
      → is_empty (mark_backend_recovering hasher b.port r).hash_ring ≡ false
  unfolding mark_backend_recovering
  rejoined r b p e =
      rw (e, mark_backend_recovering)
        (is_empty-add_node (record b { status = recovering }) r.hash_ring p)

  module _ (c : Clients) where
    -- The backend of the snapshot is judged by its entry, which the map still has.
    pub judge-Moves :
        (alive : Bool) (b : Backend) (r : Router) (n : c.Net)
        → 0 < r.hash_ring.num_vnodes
        → find b.port r.backends ≡ some b
        → (r' : Router) × (n' : c.Net) × (judge c hasher alive b r n ≡ ok (r', n'))
          × Moves r b (record b { status = verdict alive b.status }) r'
    unfolding judge
    judge-Moves true b r n p e = elim (Status-cases b.status) [
      | inl is ↦ (r, n, unfold is_down in ground (arith, is), keeps r b _ e (ground (arith, is)))
      | inr (inl is) ↦
          (r, n, unfold is_down in ground (arith, is), keeps r b _ e (ground (arith, is)))
      | inr (inr is) ↦
          let joined = mark_backend_recovering hasher b.port r in
          let b' : Backend = record b { status = recovering } in
          let first = recovering_Moves r b e in
          let now : find b.port joined.backends ≡ some b' =
            first.entries b.port ∙ rw ((int_eq_iff b.port b.port).1 refl) in
          let (n', copied, _) =
            recover-keeps c b (λ x. Unit {0}) (λ x path y u. tt) hasher joined (λ k v y w u. tt) n
              (rejoined r b p e) tt in
          (
            mark_backend_up hasher b.port joined,
            n',
            unfold is_down in ground (arith, is, copied),
            subst (λ s. Moves r b (record b { status = s }) (mark_backend_up hasher b.port joined))
                (ground (arith, is))
                (then_Moves r joined _ b b' _ refl first (up_Moves joined b' now)),
          )
    ]
    judge-Moves false b r n p e = elim (Status-cases b.status) [
      | inl is ↦ (
        mark_backend_down hasher b.port r,
        n,
        unfold is_up in ground (arith, is),
        down_Moves r b e,
      )
      | inr (inl is) ↦ (
        mark_backend_down hasher b.port r,
        n,
        unfold is_up is_recovering in ground (arith, is),
        down_Moves r b e,
      )
      | inr (inr is) ↦ (r, n, unfold is_up is_recovering in ground (arith, is), keeps r b _ e is)
    ]
