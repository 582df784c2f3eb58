-- ===== src/Router/Routing.antt =====
-- Which backends serve a key, by their status.
use load_tester_project.Base.{
  ℕ, true, false, List, [], ◌∷◌, some, Bytes, ◌≡◌, ◌≢◌, ◌⊎◌, inl, inr, refl, sym, ap, ◌∙◌, arith,
  if◌then◌else◌, Bool-cases, Option-cases, All, All-map, All-take, take, select,
}
use load_tester_project.Base.Decimal.{ℤ, int_eq_iff}
use load_tester_project.Base.Result.{ok, throw, runtime_error, ◌>>=◌}
use load_tester_project.Base.UnorderedMap.{find, find-assign, int_keys}
use load_tester_project.Backend.{Backend, up, recovering, down}
use load_tester_project.Backend.Identity.{SameAddress}
use load_tester_project.HashRing.{is_empty}
use load_tester_project.HashRing.Walk.{preference}
use load_tester_project.HashRing.Lookup.{get_nodes-preference}
use load_tester_project.HashRing.Service.{AllDifferent-take}
use load_tester_project.HashRing.Replicas.{preference-All, preference-AllDifferent, AllDifferent}
use load_tester_project.Router.{
  Router, is_up, read_targets, write_targets, get_backends_for_key, get_read_backends_for_key,
  get_write_backends_for_key, mark_backend_down,
}
use load_tester_project.Router.Validity.{IsValid, IsRegistered, mark_backend_down-IsValid}

-- Reads go to the UP ones among the targets of a write.
read_targets-select :
    (m : List (ℤ × Backend)) (nodes : List Backend)
    → read_targets m nodes ≡ select is_up (write_targets m nodes)
unfolding read_targets write_targets
read_targets-select m [] = refl
read_targets-select m (n ∷ nodes) = elim (Option-cases (find n.port m)) [
  | inl missing ↦ ground (arith, missing, read_targets-select m nodes)
  | inr (b, found) ↦ ground (arith, found, read_targets-select m nodes)
]

-- Whatever a read is sent to is UP, and is the map's entry for its port.
read_targets_up :
    (m : List (ℤ × Backend)) (nodes : List Backend)
    → ((port : ℤ) (b : Backend) → find port m ≡ some b → b.port ≡ port)
    → All (λ t. (t.status ≡ up) × (find t.port m ≡ some t)) (read_targets m nodes)
unfolding read_targets
read_targets_up m [] keyed = tt
read_targets_up m (n ∷ nodes) keyed = elim (Option-cases (find n.port m)) [
  | inl missing ↦
      let skip : read_targets m (n ∷ nodes) ≡ read_targets m nodes = ground (arith, missing) in
      rw skip (read_targets_up m nodes keyed)
  | inr (b, found) ↦ elim (Bool-cases (is_up b)) [
    | inl live ↦
        let keep : read_targets m (n ∷ nodes) ≡ b ∷ read_targets m nodes =
          ground (arith, found, live) in
        let own : find b.port m ≡ some b = ap (λ p. find p m) (keyed n.port b found) ∙ found in
        rw keep ((ground arith, own), read_targets_up m nodes keyed)
    | inr dead ↦
        let skip : read_targets m (n ∷ nodes) ≡ read_targets m nodes =
          ground (arith, found, dead) in
        rw skip (read_targets_up m nodes keyed)
  ]
]

-- The targets of a write are, one for one, the map's entries for the nodes of the ring.
pub data Targets (m : List (ℤ × Backend)) : List Backend → List Backend → Type 0 where
  nil : Targets m [] []
  cons :
      {t n : Backend} {ts ns : List Backend}
      → find n.port m ≡ some t
      → SameAddress t n
      → (t.status ≡ up) ⊎ (t.status ≡ recovering)
      → Targets m ts ns
      → Targets m (t ∷ ts) (n ∷ ns)

status-cases : (b : Backend) → b.status ≢ down → (b.status ≡ up) ⊎ (b.status ≡ recovering)
status-cases b h = ground arith

write_targets-Targets :
    (m : List (ℤ × Backend)) (nodes : List Backend)
    → ((port : ℤ) (b : Backend) → find port m ≡ some b → b.port ≡ port)
    → All (IsRegistered m) nodes
    → Targets m (write_targets m nodes) nodes
unfolding write_targets
write_targets-Targets m [] keyed h = nil
write_targets-Targets m (n ∷ nodes) keyed h =
    let (b, found, ip, live) = h.0 in
    let rest = write_targets-Targets m nodes keyed h.1 in
    let first : write_targets m (n ∷ nodes) ≡ b ∷ write_targets m nodes =
      ground (arith, found, status-cases b live) in
    rw first (cons found (ip, keyed n.port b found) (status-cases b live) rest)

Targets-AllDifferent :
    {m : List (ℤ × Backend)} {ts ns : List Backend}
    → Targets m ts ns
    → AllDifferent ns
    → AllDifferent ts
Targets-AllDifferent nil d = tt
Targets-AllDifferent (cons {t} {n} found same live rest) d =
    (apart t n rest same.0 same.1 d.0, Targets-AllDifferent rest d.1)
  where
    apart :
        {m : List (ℤ × Backend)} {ts ns : List Backend} (t n : Backend)
        → Targets m ts ns
        → t.ip ≡ n.ip
        → t.port ≡ n.port
        → All (λ c. ¬ SameAddress c n) ns
        → All (λ c. ¬ SameAddress c t) ts
    apart t n nil i p h = tt
    apart t n (cons f s l rest) i p h =
        ((λ e. h.0 (sym s.0 ∙ e.0 ∙ i, sym s.1 ∙ e.1 ∙ p)), apart t n rest i p h.1)

module _ (hasher : Bytes → ℕ) (key : Bytes) (factor : ℕ) (r : Router) where
  -- The backends that the ring prefers for the key.
  abbrev pub preferred : List Backend
  preferred = take factor (preference hasher key r.hash_ring)

  pub get_backends_for_key_lem :
      get_backends_for_key hasher key factor r
      ≡ (if is_empty r.hash_ring then throw runtime_error else ok preferred)
  unfolding get_backends_for_key
  get_backends_for_key_lem = rw (get_nodes-preference hasher key r.hash_ring factor)

  pub get_read_backends_for_key_lem : get_read_backends_for_key hasher key factor r ≡ (
      if is_empty r.hash_ring then throw runtime_error else ok (read_targets r.backends preferred))
  unfolding get_read_backends_for_key
  get_read_backends_for_key_lem = rw (get_nodes-preference hasher key r.hash_ring factor)

  pub get_write_backends_for_key_lem : get_write_backends_for_key hasher key factor r ≡ (
      if is_empty r.hash_ring then throw runtime_error else ok (write_targets r.backends preferred))
  unfolding get_write_backends_for_key
  get_write_backends_for_key_lem = rw (get_nodes-preference hasher key r.hash_ring factor)

  -- On a valid router with a ring that is not empty a write goes to every preferred backend: for
  -- each, the map's entry, which has its address and is UP or RECOVERING. No address comes
  -- twice.
  pub get_write_backends_for_key-Targets :
      IsValid hasher r
      → is_empty r.hash_ring ≡ false
      → (ts : List Backend) × (get_write_backends_for_key hasher key factor r ≡ ok ts)
        × Targets r.backends ts preferred
        × AllDifferent ts
  get_write_backends_for_key-Targets v ne =
      let targets = write_targets-Targets r.backends preferred v.keyed (
        All-take _ factor _
          (preference-All hasher key r.hash_ring (IsRegistered r.backends) v.registered)) in
      (
        write_targets r.backends preferred,
        get_write_backends_for_key_lem ∙ rw ne,
        targets,
        Targets-AllDifferent targets
            (AllDifferent-take factor _ (preference-AllDifferent hasher key r.hash_ring)),
      )

  -- A read goes to the UP ones among the targets of a write, in the same order, and throws when
  -- a write throws.
  pub get_read_backends_for_key-select :
      get_read_backends_for_key hasher key factor r
      ≡ (get_write_backends_for_key hasher key factor r >>= λ ts. ok (select is_up ts))
  get_read_backends_for_key-select =
      rw (get_read_backends_for_key_lem, get_write_backends_for_key_lem)
        (ground (arith, read_targets-select r.backends preferred))

module _ (hasher : Bytes → ℕ) (key : Bytes) (factor : ℕ) where
  avoids :
      (m : List (ℤ × Backend)) (port : ℤ) (b : Backend) (node : Backend)
      → find port m ≡ some b
      → b.status ≡ down
      → IsRegistered m node
      → node.port ≢ port
  avoids m port b node found is_down (c, there, ip, live) same =
      let one : some c ≡ some b = sym there ∙ ap (λ p. find p m) same ∙ found in
      let c_eq : c ≡ b = cc in live (ap (λ x. x.status) c_eq ∙ is_down)

  -- On a valid router a registered backend that is marked DOWN is off the ring: no key prefers
  -- it, whatever the factor.
  pub mark_backend_down-preferred :
      (port : ℤ) (r : Router) (b : Backend)
      → IsValid hasher r
      → find port r.backends ≡ some b
      → All (λ n. n.port ≢ port) (preferred hasher key factor (mark_backend_down hasher port r))
  mark_backend_down-preferred port r b v found =
      let r' = mark_backend_down hasher port r in
      let v' = mark_backend_down-IsValid hasher port r v in
      let now : find port r'.backends ≡ some (record b { status = down }) =
        unfold mark_backend_down in
        ground (
          arith,
          found,
          find-assign port port (record b { status = down }) r.backends,
          int_eq_iff port port,
        ) in
      All-take _ factor _ (
        preference-All hasher key r'.hash_ring _ (
          All-map _ _ (λ e. avoids _ port (record b { status = down }) e.1 now refl) _
            v'.registered))

  other_port :
      (m : List (ℤ × Backend)) (port : ℤ) (b t : Backend)
      → find port m ≡ some b
      → b.status ≡ recovering
      → t.status ≡ up
      → find t.port m ≡ some t
      → t.port ≢ port
  other_port m port b t there waiting live own same =
      let one : some t ≡ some b = sym own ∙ ap (λ p. find p m) same ∙ there in
      let s : t.status ≡ b.status = ground arith in cc (live, s, waiting)

  -- On a valid router no read goes to the port of a backend that is registered as RECOVERING.
  pub recovering-reads :
      (port : ℤ) (r : Router) (b : Backend) (ts : List Backend)
      → IsValid hasher r
      → find port r.backends ≡ some b
      → b.status ≡ recovering
      → get_read_backends_for_key hasher key factor r ≡ ok ts
      → All (λ t. t.port ≢ port) ts
  recovering-reads port r b ts v found waiting e =
      let read : read_targets r.backends (preferred hasher key factor r) ≡ ts =
        ground (arith, get_read_backends_for_key_lem hasher key factor r, e) in
      rw (← read) (
        All-map (λ t. (t.status ≡ up) × (find t.port r.backends ≡ some t)) _
          (λ t h. other_port r.backends port b t found waiting h.0 h.1) _
          (read_targets_up r.backends (preferred hasher key factor r) v.keyed))

  -- On a valid router where every registered backend is DOWN, each lookup throws.
  pub all_down_throws :
      (r : Router)
      → IsValid hasher r
      → ((port : ℤ) (b : Backend) → find port r.backends ≡ some b → b.status ≡ down)
      → (get_read_backends_for_key hasher key factor r ≡ throw runtime_error)
        × (get_write_backends_for_key hasher key factor r ≡ throw runtime_error)
        × (get_backends_for_key hasher key factor r ≡ throw runtime_error)
  all_down_throws r v h =
      let empty = no_entries r.hash_ring.ring v.registered in
      let none_left : is_empty r.hash_ring ≡ true = unfold is_empty in ground (arith, empty) in
      (
        get_read_backends_for_key_lem hasher key factor r ∙ rw none_left,
        get_write_backends_for_key_lem hasher key factor r ∙ rw none_left,
        get_backends_for_key_lem hasher key factor r ∙ rw none_left,
      )
    where
      no_entries : (m : List (ℕ × Backend)) → All (λ e. IsRegistered r.backends e.1) m → m ≡ []
      no_entries [] a = refl
      no_entries (e ∷ m) a = absurd (a.0.3 (h e.1.port a.0.0 a.0.1))
