-- ===== src/KvServer/Writes.antt =====
-- What the handlers that write reply, and what they leave in the database, on every branch.
use load_tester_project.Base.{
  Bool, ◌++◌, Option, none, some, Bytes, codes, ◌≡◌, ◌≢◌, inl, inr, refl, ◌∙◌, arith, Option-cases,
}
use load_tester_project.Database.{
  Database, committed, thrown, Statement, insert, delete, written, Exec-cases, Commit-cases,
}
use load_tester_project.LruCache.{LruCache}
use load_tester_project.LruCache as Cache
use load_tester_project.KvServer.{
  Request, Response, Server, run_statement, split_body, handle_create, handle_delete, leaving,
}
use load_tester_project.KvServer.Coherence.{
  IsCoherentBut, run_statement-done, run_statement-violation, Cached, Cached-create_key,
  Cached-delete_key, wider-IsCoherentBut, doubtful-IsCoherentBut,
}
use load_tester_project.KvServer.Outcomes.{
  CreatePost, DeletePost, Serves, Writes, unchanged, refused, refusal, written_self, written_other,
  still_there, settled, settled-other, settled_self,
}

module _ (d : Database) where
  pub handle_create-Serves :
      (req : Request) (x : Bytes → Bool) (s : Server d)
      → IsCoherentBut d x s
      → Serves d (λ r. x) (handle_create d req s) (CreatePost d req s)
  unfolding handle_create leaving
  handle_create-Serves req x s h = elim (Exec-cases (run_statement d st s.db)) [
    | inl (r, e) ↦
        let law = d.insert_law key value s.db r.0 r.1 (run_statement-done d st s.db r e) in
        elim (Commit-cases (d.commit r.0)) [
          | inl (db', f) ↦
              let now : Writes d s key (some value) (record s { db = db' }) =
                λ q. d.commit_law r.0 db' f q ∙ law.1 q in
              let c =
                Cached-create_key d x s h key value db'
                  (now key ∙ written_self d (d.contents s.db) key (some value))
                  (λ q w p. now q ∙ still_there d (d.contents s.db) key value q w law.0 p) in
              record {
                response = refusal d 201 (codes "Created Successfully");
                after = record { cache = c.after; db = db' };
                served = ground (arith, e, f, c.returns);
                coherent = c.coherent;
                as_described = inl (refl, law.0, now);
              }
          | inr (inl (what, f)) ↦
              unchanged d (refusal d 500 (codes "Error: " ++ what)) s h (ground (arith, e, f))
                (inr (inr (refl, inl refl)))
          | inr (inr (what, db', f)) ↦
              let now : Writes d s key (some value) (record s { db = db' }) =
                λ q. d.in_doubt_law r.0 db' what f q ∙ law.1 q in
              record {
                response = refusal d 500 (codes "Error: " ++ what);
                after = record s { db = db' };
                served = ground (arith, e, f);
                coherent =
                    wider-IsCoherentBut d x s h db'
                      (λ q w p. now q ∙ still_there d (d.contents s.db) key value q w law.0 p);
                as_described = inr (inr (refl, inr (law.0, refl, now)));
              }
        ]
    | inr (inl (what, e)) ↦
        unchanged d (refusal d 409 (codes "Error: Key already exists")) s h (ground (arith, e)) (
          inr (
            inl (
              refl,
              d.violation_law key value what s.db (run_statement-violation d st s.db what e),
              refl,
            )))
    | inr (inr (what, e)) ↦
        unchanged d (refusal d 500 (codes "Error: " ++ what)) s h (ground (arith, e))
          (inr (inr (refl, inl refl)))
  ]
    where
      key : Bytes
      key = (split_body req.body).0

      value : Bytes
      value = (split_body req.body).1

      st : Statement
      st = insert key value

  module _ (x : Bytes → Bool) (s : Server d) (h : IsCoherentBut d x s) (k : Bytes)
      (v : Option Bytes) (db : d.Db)
      (law : (q : Bytes) → d.contents db q ≡ written (d.contents s.db) k v q) (r : Response) where
    others_kept :
        (db' : d.Db)
        → Writes d s k v (record s { db = db' })
        → (q : Bytes) → q ≢ k
        → d.contents db' q ≡ d.contents s.db q
    others_kept db' now q ne = now q ∙ written_other d (d.contents s.db) k v q ne

    -- `commit` and the cache's `delete_key`, once a statement has changed one key.
    pub after_commit :
        (db' : d.Db)
        → d.commit db ≡ committed db'
        → Cached d (settled d x k r) db' (Cache.delete_key k s.cache)
          × Writes d s k v (record s { db = db' })
    after_commit db' f =
        let now : Writes d s k v (record s { db = db' }) = λ q. d.commit_law db db' f q ∙ law q in
        (
          Cached-delete_key d x s h k (settled d x k r) (settled-other d x k r) db'
              (others_kept db' now),
          now,
        )

    -- A commit that took effect and threw.
    pub after_doubt :
        (db' : d.Db) (what : Bytes)
        → d.commit db ≡ thrown what (some db')
        → r.status ≡ 500
        → IsCoherentBut d (settled d x k r) (record s { db = db' })
          × Writes d s k v (record s { db = db' })
    after_doubt db' what f failed =
        let now : Writes d s k v (record s { db = db' }) =
          λ q. d.in_doubt_law db db' what f q ∙ law q in
        (
          doubtful-IsCoherentBut d x s h k (settled d x k r) (settled-other d x k r) db'
              (others_kept db' now) (settled_self d x k r failed),
          now,
        )

  -- On a server whose cache agrees with the database but for some keys in doubt, the handler
  -- ends with a reply. It replies 200 and removes the key if it was there; 404 and changes
  -- nothing if it was not; or 500. With 500 either nothing has changed, or the commit took
  -- effect although it threw, and the cache is as it was. The cache still agrees but for the
  -- keys in doubt: 500 puts the key in doubt, a success ends the doubt about it.
  pub handle_delete-Serves :
      (req : Request) (x : Bytes → Bool) (s : Server d)
      → IsCoherentBut d x s
      → Serves d (settled d x req.matched) (handle_delete d req s) (DeletePost d req s)
  unfolding handle_delete leaving
  handle_delete-Serves req x s h = elim (Exec-cases (run_statement d st s.db)) [
    | inl (r, e) ↦
        let law = d.delete_law key s.db r.0 r.1 (run_statement-done d st s.db r e) in
        elim (Option-cases (d.contents s.db key)) [
          | inl absent ↦
              refused d req.matched (refusal d 404 (codes "Key Not Found\n")) s (inl refl) h
                (ground (arith, e, absent, law.0)) (inr (inl (refl, absent, refl)))
          | inr (v, there) ↦ elim (Commit-cases (d.commit r.0)) [
            | inl (db', f) ↦
                let reply = refusal d 200 (codes "Deleted Successfully\n") in
                let (c, now) = after_commit x s h key none r.0 law.1 reply db' f in
                record {
                  response = reply;
                  after = record { cache = c.after; db = db' };
                  served = ground (arith, e, f, c.returns, law.0, there);
                  coherent = c.coherent;
                  as_described = inl (refl, (λ gone. cc (there, gone)), now);
                }
            | inr (inl (what, f)) ↦
                refused d req.matched (refusal d 500 (codes "Error: " ++ what)) s (inr refl) h
                  (ground (arith, e, f, law.0, there)) (inr (inr (refl, inl refl)))
            | inr (inr (what, db', f)) ↦
                let reply = refusal d 500 (codes "Error: " ++ what) in
                let (kept, now) = after_doubt x s h key none r.0 law.1 reply db' what f refl in
                record {
                  response = reply;
                  after = record s { db = db' };
                  served = ground (arith, e, f, law.0, there);
                  coherent = kept;
                  as_described = inr (inr (refl, inr (refl, now)));
                }
          ]
        ]
    | inr (inl (what, e)) ↦
        refused d req.matched (refusal d 500 (codes "Error: " ++ what)) s (inr refl) h
          (ground (arith, e)) (inr (inr (refl, inl refl)))
    | inr (inr (what, e)) ↦
        refused d req.matched (refusal d 500 (codes "Error: " ++ what)) s (inr refl) h
          (ground (arith, e)) (inr (inr (refl, inl refl)))
  ]
    where
      key : Bytes
      key = req.matched

      st : Statement
      st = delete key
