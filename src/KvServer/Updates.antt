-- ===== src/KvServer/Updates.antt =====
-- What an update replies, on every branch.
use load_tester_project.Base.{
  Bool, true, List, [], ◌∷◌, ◌++◌, none, some, Bytes, codes, ◌≡◌, ◌≢◌, ◌⊎◌, inl, inr, refl, ◌∙◌,
  arith, Option-cases, Bool-cases,
}
use load_tester_project.Database.{Database, done, written, Exec-cases, Commit-cases}
use load_tester_project.KvServer.{
  Request, Server, run_statement, handle_update, update_statement, leaving,
}
use load_tester_project.KvServer.Coherence.{IsCoherentBut, run_statement-done}
use load_tester_project.KvServer.Outcomes.{UpdatePost, Serves, refused, refusal, settled}
use load_tester_project.KvServer.Writes.{after_commit, after_doubt}

module _ (d : Database) where
  -- The statement of an update has changed the key.
  updated-Serves :
      (req : Request) (x : Bytes → Bool) (s : Server d) (r : d.Db × List Bytes)
      → IsCoherentBut d x s
      → run_statement d (update_statement req) s.db ≡ done r
      → r.1 ≡ req.matched ∷ []
      → ((q : Bytes) → d.contents r.0 q ≡ written (d.contents s.db) req.matched (some req.body) q)
      → (d.contents s.db req.matched ≢ none) ⊎ (req.is_replication ≡ true)
      → Serves d (settled d x req.matched) (handle_update d req s) (UpdatePost d req s)
  unfolding handle_update leaving
  updated-Serves req x s r h e rows law why = elim (Commit-cases (d.commit r.0)) [
    | inl (db', f) ↦
        let reply = refusal d 200 (codes "Updated Successfully\n") in
        let (c, now) = after_commit d x s h req.matched (some req.body) r.0 law reply db' f in
        record {
          response = reply;
          after = record { cache = c.after; db = db' };
          served = ground (arith, e, f, c.returns, rows);
          coherent = c.coherent;
          as_described = inl (refl, why, now);
        }
    | inr (inl (what, f)) ↦
        refused d req.matched (refusal d 500 (codes "Error: " ++ what)) s (inr refl) h
          (ground (arith, e, f, rows)) (inr (inr (refl, inl refl)))
    | inr (inr (what, db', f)) ↦
        let reply = refusal d 500 (codes "Error: " ++ what) in
        let (kept, now) =
          after_doubt d x s h req.matched (some req.body) r.0 law reply db' what f refl in
        record {
          response = reply;
          after = record s { db = db' };
          served = ground (arith, e, f, rows);
          coherent = kept;
          as_described = inr (inr (refl, inr (refl, now)));
        }
  ]

  pub handle_update-Serves :
      (req : Request) (x : Bytes → Bool) (s : Server d)
      → IsCoherentBut d x s
      → Serves d (settled d x req.matched) (handle_update d req s) (UpdatePost d req s)
  unfolding handle_update
  handle_update-Serves req x s h = elim (Exec-cases (run_statement d (update_statement req) s.db)) [
    | inl (r, e) ↦
        let ran = run_statement-done d (update_statement req) s.db r e in
        elim (Bool-cases req.is_replication) [
          | inl replica ↦
              let law =
                d.upsert_law key req.body s.db r.0 r.1
                  (unfold update_statement in rw (replica, update_statement) at ran) in
              updated-Serves req x s r h e law.0 law.1 (inr replica)
          | inr client ↦
              let law =
                d.update_law key req.body s.db r.0 r.1
                  (unfold update_statement in rw (client, update_statement) at ran) in
              elim (Option-cases (d.contents s.db key)) [
                | inl absent ↦
                    refused d req.matched (refusal d 404 (codes "Key not found in DB\n")) s
                      (inl refl) h (ground (arith, e, law.0, absent, client))
                      (inr (inl (refl, absent, client, refl)))
                | inr (v, there) ↦
                    let present : d.contents s.db key ≢ none = λ gone. cc (there, gone) in
                    updated-Serves req x s r h e (law.0 ∙ rw there) (law.1 present) (inl present)
              ]
        ]
    | inr (inl (what, e)) ↦
        refused d req.matched (refusal d 500 (codes "Error: " ++ what)) s (inr refl) h
          (ground (arith, e)) (inr (inr (refl, inl refl)))
    | inr (inr (what, e)) ↦
        refused d req.matched (refusal d 500 (codes "Error: " ++ what)) s (inr refl) h
          (ground (arith, e)) (inr (inr (refl, inl refl)))
  ]
    where
      key : Bytes
      key = req.matched
