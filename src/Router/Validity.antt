-- ===== src/Router/Validity.antt =====
-- The invariant of the router, and that every operation keeps it.
use load_tester_project.Base.{
  ℕ, true, false, List, [], ◌∷◌, some, Bytes, ◌≡◌, ◌≢◌, inl, inr, refl, sym, ap, ◌∙◌, arith,
  Bool-cases, Option-cases, All, All-map, All_of, All-zip,
}
use load_tester_project.Base.Decimal.{ℤ, int_eq, int_eq_iff}
use load_tester_project.Base.Result.{ok}
use load_tester_project.Base.StdMap.{IsSorted}
use load_tester_project.Base.UnorderedMap.{find, assign, find-assign, find-erase, int_keys}
use load_tester_project.Backend.{Backend, BackendStatus, up, recovering, down}
use load_tester_project.HashRing.{HashRing, add_node, remove_node}
use load_tester_project.HashRing as Ring
use load_tester_project.HashRing.Slots.{
  owns, owns-add_node, owns-remove_node, add_node-IsSorted, remove_node-IsSorted, All-add_node,
  All-remove_node, owns_address,
}
use load_tester_project.Router.{
  Router, register, init, remove_backend, mark_backend_recovering, mark_backend_up,
  mark_backend_down,
}

-- A node of the ring has an entry in the map, with its ip, that is not DOWN.
abbrev pub IsRegistered : List (ℤ × Backend) → Backend → Type 0
IsRegistered backends node =
    (b : Backend) × (find node.port backends ≡ some b) × (b.ip ≡ node.ip) × (b.status ≢ down)

pub record IsValid (hasher : Bytes → ℕ) (r : Router) : Type 0 where
  pub sorted : IsSorted r.hash_ring.ring
  pub keyed : (port : ℤ) (b : Backend) → find port r.backends ≡ some b → b.port ≡ port
  pub slotted : All (λ e. owns hasher r.hash_ring e.1 e.0 ≡ true) r.hash_ring.ring
  pub registered : All (λ e. IsRegistered r.backends e.1) r.hash_ring.ring

module _ (hasher : Bytes → ℕ) where
  -- Put a backend that is not DOWN in the map and on the ring.
  join : Backend → Router → Router
  join b r = record {
    hash_ring = add_node hasher b r.hash_ring;
    backends = assign b.port b r.backends;
  }

  IsRegistered-assign :
      (b node : Backend) (m : List (ℤ × Backend))
      → b.status ≢ down
      → ((c : Backend) → find b.port m ≡ some c → c.ip ≡ b.ip)
      → IsRegistered m node
      → IsRegistered (assign b.port b m) node
  IsRegistered-assign b node m live same (c, found, ip, status) =
      elim (Bool-cases (int_eq node.port b.port)) [
        | inl hit ↦
            let port : node.port ≡ b.port = (int_eq_iff node.port b.port).0 hit in
            (
              b,
              ground (arith, find-assign b.port node.port b m),
              sym (same c (rw port at found)) ∙ ip,
              live,
            )
        | inr miss ↦ (c, ground (arith, find-assign b.port node.port b m), ip, status)
      ]

  join-IsValid :
      (b : Backend) (r : Router)
      → b.status ≢ down
      → ((c : Backend) → find b.port r.backends ≡ some c → c.ip ≡ b.ip)
      → IsValid hasher r
      → IsValid hasher (join b r)
  unfolding join
  join-IsValid b r live same v = record {
    sorted = add_node-IsSorted hasher b r.hash_ring v.sorted;
    keyed = λ port c e.
        ground
          (arith, find-assign b.port port b r.backends, int_eq_iff port b.port, v.keyed port c);
    slotted =
        All-add_node hasher _ b r.hash_ring (λ k o. rw (owns-add_node hasher b b r.hash_ring k) o)
          (All-map _ _ (λ e o. rw (owns-add_node hasher b e.1 r.hash_ring e.0) o) _ v.slotted);
    registered =
        All-add_node hasher _ b r.hash_ring
          (λ k o. (
            b,
            ground (arith, find-assign b.port b.port b r.backends, int_eq_iff b.port b.port),
            refl,
            live,
          ))
          (All-map _ _ (λ e. IsRegistered-assign b e.1 r.backends live same) _ v.registered);
  }

  empty-IsValid :
      (vnodes : ℕ) → IsValid hasher (record { hash_ring = Ring.init vnodes; backends = [] })
  unfolding Ring.init find
  empty-IsValid vnodes = record {
    sorted = tt;
    keyed = λ port b e. cc;
    slotted = tt;
    registered = tt;
  }

  -- What the constructor is given: no backend DOWN, and no port with two addresses.
  abbrev pub IsConsistent : List Backend → Type 0
  IsConsistent [] = Unit
  IsConsistent (b ∷ bs) =
      (b.status ≢ down) × All (λ c. c.port ≡ b.port → b.ip ≡ c.ip) bs × IsConsistent bs

  register-IsValid :
      (bs : List Backend) (r : Router)
      → IsConsistent bs
      → All (λ b. (c : Backend) → find b.port r.backends ≡ some c → c.ip ≡ b.ip) bs
      → IsValid hasher r
      → IsValid hasher (register hasher bs r)
  unfolding register join
  register-IsValid [] r c a v = v
  register-IsValid (b ∷ bs) r c a v =
      register-IsValid bs (join b r) c.2 (both bs c.1 a.1) (join-IsValid b r c.0 a.0 v)
    where
      both :
          (xs : List Backend)
          → All (λ x. x.port ≡ b.port → b.ip ≡ x.ip) xs
          → All (λ x. (d : Backend) → find x.port r.backends ≡ some d → d.ip ≡ x.ip) xs
          → All
              (λ x. (d : Backend) → find x.port (assign b.port b r.backends) ≡ some d → d.ip ≡ x.ip)
              xs
      both [] h k = tt
      both (x ∷ xs) h k = (
        λ d e.
            ground
              (arith, find-assign b.port x.port b r.backends, int_eq_iff x.port b.port, h.0, k.0 d),
        both xs h.1 k.1,
      )

  -- The constructor builds a valid router.
  pub init-IsValid :
      (bs : List Backend) (vnodes : ℕ) {r : Router}
      → IsConsistent bs
      → init hasher bs vnodes ≡ ok r
      → IsValid hasher r
  unfolding init find
  init-IsValid [] vnodes c e = cc
  init-IsValid (b ∷ bs) vnodes {r} c e =
      let start : Router = record { hash_ring = Ring.init vnodes; backends = [] } in
      let built : register hasher (b ∷ bs) start ≡ r = cc in
      rw (← built)
        (register-IsValid (b ∷ bs) start c (All_of _ (λ x d f. cc) (b ∷ bs)) (empty-IsValid vnodes))

  -- An operation that makes a registered backend UP or RECOVERING.
  rejoin-IsValid :
      (port : ℤ) (r : Router) (b : Backend) (status : BackendStatus)
      → status ≢ down
      → find port r.backends ≡ some b
      → IsValid hasher r
      → IsValid hasher (record {
        hash_ring = add_node hasher (record b { status = status }) r.hash_ring;
        backends = assign port (record b { status = status }) r.backends;
      })
  unfolding join
  rejoin-IsValid port r b status live found v =
      let key : b.port ≡ port = v.keyed port b found in
      rw (← key) (
        join-IsValid (record b { status = status }) r live (λ c e. ground (arith, found, key, e)) v)

  pub mark_backend_recovering-IsValid :
      (port : ℤ) (r : Router)
      → IsValid hasher r
      → IsValid hasher (mark_backend_recovering hasher port r)
  unfolding mark_backend_recovering
  mark_backend_recovering-IsValid port r v = elim (Option-cases (find port r.backends)) [
    | inl missing ↦ rw (missing, mark_backend_recovering) v
    | inr (b, found) ↦
        rw (found, mark_backend_recovering) (rejoin-IsValid port r b recovering (λ e. cc) found v)
  ]

  pub mark_backend_up-IsValid :
      (port : ℤ) (r : Router) → IsValid hasher r → IsValid hasher (mark_backend_up hasher port r)
  unfolding mark_backend_up
  mark_backend_up-IsValid port r v = elim (Option-cases (find port r.backends)) [
    | inl missing ↦ rw (missing, mark_backend_up) v
    | inr (b, found) ↦ rw (found, mark_backend_up) (rejoin-IsValid port r b up (λ e. cc) found v)
  ]

  -- A node that stays on the ring when `b` leaves it has another port.
  port_differs :
      (h : HashRing) (m : List (ℤ × Backend)) (b c : Backend) (e : ℕ × Backend)
      → find b.port m ≡ some c
      → c.ip ≡ b.ip
      → IsRegistered m e.1
      → owns hasher h e.1 e.0 ≡ true
      → owns hasher h b e.0 ≡ false
      → int_eq e.1.port b.port ≡ false
  port_differs h m b c e found ip (d, there, d_ip, live) slot free =
      elim (Bool-cases (int_eq e.1.port b.port)) [
        | inr other ↦ other
        | inl same ↦
            let port : e.1.port ≡ b.port = (int_eq_iff e.1.port b.port).0 same in
            let one : some d ≡ some c = sym there ∙ ap (λ p. find p m) port ∙ found in
            let d_eq : d ≡ c = cc in
            let e_ip : e.1.ip ≡ b.ip = sym d_ip ∙ ap (λ x. x.ip) d_eq ∙ ip in
            absurd (ground (arith, owns_address hasher h e.1 b e.0 (e_ip, port)))
      ]

  leave-IsValid :
      (b c : Backend) (r : Router) (m : List (ℤ × Backend))
      → find b.port r.backends ≡ some c
      → c.ip ≡ b.ip
      → ((port : ℤ) → int_eq port b.port ≡ false → find port m ≡ find port r.backends)
      → ((port : ℤ) (d : Backend) → find port m ≡ some d → d.port ≡ port)
      → IsValid hasher r
      → IsValid hasher (record { hash_ring = remove_node hasher b r.hash_ring; backends = m })
  leave-IsValid b c r m found ip others keyed v = record {
    sorted = remove_node-IsSorted hasher b r.hash_ring v.sorted;
    keyed = keyed;
    slotted =
        All-remove_node hasher _ _ b r.hash_ring
          (λ e o f. rw (owns-remove_node hasher b e.1 r.hash_ring e.0) o) v.slotted;
    registered =
        All-remove_node hasher
          (λ e. (owns hasher r.hash_ring e.1 e.0 ≡ true) × IsRegistered r.backends e.1) _ b
          r.hash_ring
          (λ e o f.
            let (d, there, d_ip, live) = o.1 in
            (
              d,
              others e.1.port (port_differs r.hash_ring r.backends b c e found ip o.1 o.0 f)
                  ∙ there,
              d_ip,
              live,
            ))
          (All-zip _ _ r.hash_ring.ring v.slotted v.registered);
  }

  pub mark_backend_down-IsValid :
      (port : ℤ) (r : Router) → IsValid hasher r → IsValid hasher (mark_backend_down hasher port r)
  unfolding mark_backend_down
  mark_backend_down-IsValid port r v = elim (Option-cases (find port r.backends)) [
    | inl missing ↦ rw (missing, mark_backend_down) v
    | inr (b, found) ↦
        let b' = record b { status = down } in
        let key : b.port ≡ port = v.keyed port b found in
        rw (found, mark_backend_down)
          (leave-IsValid b' b r _ (ap (λ p. find p r.backends) key ∙ found) refl
            (λ p o. ground (arith, find-assign port p b' r.backends, key, o))
            (λ p d e.
              ground (arith, find-assign port p b' r.backends, int_eq_iff p port, key, v.keyed p d))
            v)
  ]

  -- `removeBackend` is meant for a backend that is registered under the address it is given by.
  pub remove_backend-IsValid :
      (b c : Backend) (r : Router)
      → find b.port r.backends ≡ some c
      → c.ip ≡ b.ip
      → IsValid hasher r
      → IsValid hasher (remove_backend hasher b r)
  unfolding remove_backend
  remove_backend-IsValid b c r found ip v =
      leave-IsValid b c r _ found ip (λ p o. ground (arith, find-erase b.port p r.backends, o))
        (λ p d e. ground (arith, find-erase b.port p r.backends, v.keyed p d)) v
