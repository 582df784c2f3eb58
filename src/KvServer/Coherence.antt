-- ===== src/KvServer/Coherence.antt =====
-- The cache of a server agrees with its database, and the moves of one agree with the other's.
use load_tester_project.Base.{
  Bool, true, false, ◌⊎◌, inl, inr, ap, Bool-cases, str_eq, str_eq_iff, List, [], Option, some,
  Bytes, ◌≡◌, ◌≢◌, refl, ◌∙◌, arith, All, All-map,
}
use load_tester_project.Database.{Database, done, unique_violation, Statement}
use load_tester_project.LruCache.{LruCache, read_key, create_key, delete_key}
use load_tester_project.LruCache.Eviction.{create_key-Gives}
use load_tester_project.LruCache.Refinement.{IsValid, pairs, read_key-Gives, delete_key-Gives}
use load_tester_project.LruCache.Entries.{All-read, All-create, All-delete, All-lookup, read_value}
use load_tester_project.LruCache.Spec
use load_tester_project.KvServer.{Server, run_statement}

module _ (d : Database) where
  -- Every cached pair is in the database, but for the keys of `x`, which are in doubt.
  pub record IsCoherentBut (x : Bytes → Bool) (s : Server d) : Type 0 where
    pub valid : IsValid s.cache
    pub agrees : All (λ e. (x e.0 ≡ true) ⊎ (d.contents s.db e.0 ≡ some e.1)) (pairs s.cache)

  abbrev pub no_doubt : Bytes → Bool
  no_doubt q = false

  -- Every cached pair is in the database.
  abbrev pub IsCoherent : Server d → Type 0
  IsCoherent s = IsCoherentBut no_doubt s

  -- A statement on a table, with the connection made.
  pub run_statement-done :
      (st : Statement) (db : d.Db) (r : d.Db × List Bytes)
      → run_statement d st db ≡ done r
      → d.exec st db ≡ done r
  unfolding run_statement
  run_statement-done st db r e = ground (arith, e)

  pub run_statement-violation :
      (st : Statement) (db : d.Db) (what : Bytes)
      → run_statement d st db ≡ unique_violation what
      → d.exec st db ≡ unique_violation what
  unfolding run_statement
  run_statement-violation st db what e = ground (arith, e)

  -- What the cache does, as far as the database can tell.
  pub record Cached (x : Bytes → Bool) {A : Type 0} (db : d.Db) (outcome : Option (A × LruCache))
      : Type 0 where
    pub answer : A
    pub after : LruCache
    pub returns : outcome ≡ some (answer, after)
    pub coherent : IsCoherentBut x (record { cache = after; db = db })

  module _ (x : Bytes → Bool) (s : Server d) (h : IsCoherentBut x s) where
    -- A cached pair that agrees with a table, or is in doubt.
    abbrev Agrees : (Bytes → Bool) → d.Db → Bytes × Bytes → Type 0
    Agrees y db e = (y e.0 ≡ true) ⊎ (d.contents db e.0 ≡ some e.1)

    pub Cached-read_key :
        (k : Bytes)
        → (c : Cached x s.db (read_key k s.cache)) × (c.answer ≢ []
            → (x k ≡ true) ⊎ (d.contents s.db k ≡ some c.answer))
    Cached-read_key k =
        let g = read_key-Gives k s.cache h.valid in
        let l = pairs s.cache in
        (
          record {
            answer = (Spec.read k l).0;
            after = g.after;
            returns = g.returns;
            coherent = record {
              valid = g.valid;
              agrees = rw g.contents (All-read (Agrees x s.db) k l h.agrees);
            };
          },
          λ ne. All-lookup (Agrees x s.db) k _ l h.agrees (read_value k l _ refl ne),
        )

    pub Cached-create_key :
        (k v : Bytes) (db : d.Db)
        → d.contents db k ≡ some v
        → ((q v : Bytes) → d.contents s.db q ≡ some v → d.contents db q ≡ some v)
        → Cached x db (create_key k v s.cache)
    Cached-create_key k v db new old =
        let g = create_key-Gives k v s.cache h.valid in
        let l = pairs s.cache in
        record {
          answer = (Spec.create s.cache.capacity k v l).0;
          after = g.after;
          returns = g.returns;
          coherent = record {
            valid = g.valid;
            agrees = rw g.contents (
                All-create (Agrees x db) s.cache.capacity k v l (inr new)
                  (All-map (Agrees x s.db) _ (still db old) l h.agrees));
          };
        }
      where
        still :
            (db : d.Db)
            → ((q v : Bytes) → d.contents s.db q ≡ some v → d.contents db q ≡ some v)
            → (e : Bytes × Bytes) → Agrees x s.db e
            → Agrees x db e
        still db old e (inl doubt) = inl doubt
        still db old e (inr p) = inr (old e.0 e.1 p)

    -- A table with more keys leaves the cached pairs as good as they were.
    pub wider-IsCoherentBut :
        (db : d.Db)
        → ((q v : Bytes) → d.contents s.db q ≡ some v → d.contents db q ≡ some v)
        → IsCoherentBut x (record s { db = db })
    wider-IsCoherentBut db old = record {
      valid = h.valid;
      agrees = All-map (Agrees x s.db) (Agrees x db) still _ h.agrees;
    }
      where
        still : (e : Bytes × Bytes) → Agrees x s.db e → Agrees x db e
        still e (inl doubt) = inl doubt
        still e (inr p) = inr (old e.0 e.1 p)

    module _ (k : Bytes) (y : Bytes → Bool) (same : (q : Bytes) → q ≢ k → y q ≡ x q) (db : d.Db)
        (others : (q : Bytes) → q ≢ k → d.contents db q ≡ d.contents s.db q) where
      other_Agrees : (e : Bytes × Bytes) → Agrees x s.db e → e.0 ≢ k → Agrees y db e
      other_Agrees e (inl doubt) ne = inl (same e.0 ne ∙ doubt)
      other_Agrees e (inr p) ne = inr (others e.0 ne ∙ p)

      -- Dropping a key from the cache makes up for any change at that key in the database.
      pub Cached-delete_key : Cached y db (delete_key k s.cache)
      Cached-delete_key =
          let g = delete_key-Gives k s.cache h.valid in
          let l = pairs s.cache in
          record {
            answer = (Spec.delete k l).0;
            after = g.after;
            returns = g.returns;
            coherent = record {
              valid = g.valid;
              agrees = rw g.contents (
                  All-map (λ e. Agrees x s.db e × (e.0 ≢ k)) _ (λ e p. other_Agrees e p.0 p.1) _
                    (All-delete (Agrees x s.db) k l h.agrees));
            };
          }

      -- A change at a key that is put in doubt.
      pub doubtful-IsCoherentBut : y k ≡ true → IsCoherentBut y (record s { db = db })
      doubtful-IsCoherentBut doubt = record {
        valid = h.valid;
        agrees = All-map (Agrees x s.db) (Agrees y db) still _ h.agrees;
      }
        where
          still : (e : Bytes × Bytes) → Agrees x s.db e → Agrees y db e
          still e p = elim (Bool-cases (str_eq e.0 k)) [
            | inl hit ↦ inl (ap y ((str_eq_iff e.0 k).0 hit) ∙ doubt)
            | inr miss ↦ other_Agrees e p (λ q. absurd (ground (arith, miss, str_eq_iff e.0 k, q)))
          ]
