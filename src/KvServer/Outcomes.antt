-- ===== src/KvServer/Outcomes.antt =====
-- What each handler replies and what it leaves in the database, on every branch.
use load_tester_project.Base.{
  Bool, All-map, refl, if◌then◌else◌, ◌==◌, ℕ, true, Option, none, some, Bytes, ◌≡◌, ◌≢◌, ◌⊎◌,
  false, inl, inr, ap, ◌∙◌, arith, Bool-cases, str_eq, str_eq_iff, str_eq_refl,
}
use load_tester_project.Database.{Database, written}
use load_tester_project.KvServer.{Request, Response, Server, split_body}
use load_tester_project.KvServer.Coherence.{IsCoherentBut}

module _ (d : Database) where
  -- The handler ends with a reply, in a state that is coherent but for the keys of `doubt`, and the
  -- two are as described.
  pub record Serves (doubt : Response → Bytes → Bool) (outcome : Option (Response × Server d))
      (Post : Response → Server d → Type 0) : Type 0 where
    pub response : Response
    pub after : Server d
    pub served : outcome ≡ some (response, after)
    pub coherent : IsCoherentBut d (doubt response) after
    pub as_described : Post response after

  -- The table after `s'` is the one before, with one key changed.
  abbrev pub Writes : Server d → Bytes → Option Bytes → Server d → Type 0
  Writes s k v s' = (q : Bytes) → d.contents s'.db q ≡ written (d.contents s.db) k v q

  -- 500: nothing has changed, or the commit took effect all the same, and the cache is as it was.
  abbrev pub Fails : Server d → Bytes → Option Bytes → Response → Server d → Type 0
  Fails s k v r s' = (r.status ≡ 500) × ((s' ≡ s) ⊎ ((s'.cache ≡ s.cache) × Writes s k v s'))

  -- The doubt about a key behind a reply to a write of it: 500 puts it in doubt, and a write that
  -- succeeds ends the doubt.
  abbrev pub settled : (Bytes → Bool) → Bytes → Response → Bytes → Bool
  settled x k r q = if str_eq q k then (if r.status == 404 then x q else r.status == 500) else x q

  pub settled-other :
      (x : Bytes → Bool) (k : Bytes) (r : Response) (q : Bytes) → q ≢ k → settled x k r q ≡ x q
  settled-other x k r q ne = ground (arith, str_eq_iff q k, ne)

  pub settled_self :
      (x : Bytes → Bool) (k : Bytes) (r : Response) → r.status ≡ 500 → settled x k r k ≡ true
  settled_self x k r e = rw (str_eq_refl k, e) refl

  -- 201 and the pair is stored, if the key was new; 409 if it was there; or 500.
  abbrev pub CreatePost : Request → Server d → Response → Server d → Type 0
  CreatePost req s r s' =
      let key = (split_body req.body).0 in
      let value = (split_body req.body).1 in
      ((r.status ≡ 201) × (d.contents s.db key ≡ none) × Writes s key (some value) s')
      ⊎ (((r.status ≡ 409) × (d.contents s.db key ≢ none) × (s' ≡ s))
          ⊎ ((r.status ≡ 500)
              × ((s' ≡ s)
                  ⊎ ((d.contents s.db key ≡ none)
                      × (s'.cache ≡ s.cache)
                      × Writes s key (some value) s'))))

  -- 200 and the key is gone, if it was there; 404 if it was not; or 500.
  abbrev pub DeletePost : Request → Server d → Response → Server d → Type 0
  DeletePost req s r s' =
      ((r.status ≡ 200) × (d.contents s.db req.matched ≢ none) × Writes s req.matched none s')
      ⊎ (((r.status ≡ 404) × (d.contents s.db req.matched ≡ none) × (s' ≡ s))
          ⊎ Fails s req.matched none r s')

  -- 200 and the value is stored, if the key was there or the request is a replica's; 404 if
  -- neither; or 500.
  abbrev pub UpdatePost : Request → Server d → Response → Server d → Type 0
  UpdatePost req s r s' =
      ((r.status ≡ 200)
        × ((d.contents s.db req.matched ≢ none) ⊎ (req.is_replication ≡ true))
        × Writes s req.matched (some req.body) s')
      ⊎ (((r.status ≡ 404)
            × (d.contents s.db req.matched ≡ none)
            × (req.is_replication ≡ false)
            × (s' ≡ s))
          ⊎ Fails s req.matched (some req.body) r s')

  -- 201 and the value is stored, whatever was there; or 500.
  abbrev pub SyncPost : Request → Server d → Response → Server d → Type 0
  SyncPost req s r s' =
      ((r.status ≡ 201) × Writes s req.matched (some req.body) s')
      ⊎ Fails s req.matched (some req.body) r s'

  -- A reply that leaves the state as it was.
  pub unchanged :
      {doubt : Response → Bytes → Bool} {outcome : Option (Response × Server d)}
      {Post : Response → Server d → Type 0} (response : Response) (s : Server d)
      → IsCoherentBut d (doubt response) s
      → outcome ≡ some (response, s)
      → Post response s
      → Serves doubt outcome Post
  unchanged response s h e p = record {
    response = response;
    after = s;
    served = e;
    coherent = h;
    as_described = p;
  }

  -- More doubt leaves a server coherent.
  pub weaken :
      (x y : Bytes → Bool) (s : Server d)
      → ((q : Bytes) → x q ≡ true → y q ≡ true)
      → IsCoherentBut d x s
      → IsCoherentBut d y s
  weaken x y s more h = record { valid = h.valid; agrees = All-map _ _ wider _ h.agrees }
    where
      wider :
          (e : Bytes × Bytes)
          → (x e.0 ≡ true) ⊎ (d.contents s.db e.0 ≡ some e.1)
          → (y e.0 ≡ true) ⊎ (d.contents s.db e.0 ≡ some e.1)
      wider e (inl p) = inl (more e.0 p)
      wider e (inr p) = inr p

  -- A reply with status 404 or 500 that leaves the state as it was.
  pub refused :
      {x : Bytes → Bool} {outcome : Option (Response × Server d)}
      {Post : Response → Server d → Type 0} (k : Bytes) (response : Response) (s : Server d)
      → (response.status ≡ 404) ⊎ (response.status ≡ 500)
      → IsCoherentBut d x s
      → outcome ≡ some (response, s)
      → Post response s
      → Serves (settled x k) outcome Post
  refused {x} k response s (inl gone) h e p =
      unchanged response s
        (weaken x _ s
          (λ q t. elim (Bool-cases (str_eq q k)) [
            | inl hit ↦ rw (hit, gone) t
            | inr miss ↦ rw miss t
          ])
          h)
        e p
  refused {x} k response s (inr failed) h e p =
      unchanged response s
        (weaken x _ s
          (λ q t. elim (Bool-cases (str_eq q k)) [
            | inl hit ↦ rw (hit, failed) refl
            | inr miss ↦ rw miss t
          ])
          h)
        e p

  abbrev pub refusal : ℕ → Bytes → Response
  refusal status content = record { status = status; content = content; connection_close = true }

  pub written_self : (t : Bytes → Option Bytes) (k : Bytes) (v : Option Bytes) → written t k v k ≡ v
  written_self t k v = rw (str_eq_refl k)

  pub written_other :
      (t : Bytes → Option Bytes) (k : Bytes) (v : Option Bytes) (q : Bytes)
      → q ≢ k
      → written t k v q ≡ t q
  written_other t k v q h = ground (arith, str_eq_iff q k)

  pub still_there :
      (t : Bytes → Option Bytes) (k : Bytes) (v : Bytes) (q w : Bytes)
      → t k ≡ none
      → t q ≡ some w
      → written t k (some v) q ≡ some w
  still_there t k v q w e h = elim (Bool-cases (str_eq q k)) [
    | inl same ↦ let gone : t q ≡ none = ap t ((str_eq_iff q k).0 same) ∙ e in absurd (cc (gone, h))
    | inr other ↦ rw other h
  ]
