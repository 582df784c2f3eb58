-- ===== src/KvServer/Reads.antt =====
-- What `handle_read` replies, on every branch.
use load_tester_project.Base.{
  Bool, true, List, [], ◌∷◌, ◌++◌, none, some, Bytes, codes, ◌≡◌, ◌≢◌, ◌⊎◌, inl, inr, refl, sym, ap,
  ◌∙◌, arith, Option-cases,
}
use load_tester_project.Base.Streams.{c_str}
use load_tester_project.Database.{Database, done, select_value, rows_of, Exec-cases}
use load_tester_project.KvServer.{
  Request, Response, Server, run_statement, handle_read, query_value, answer_rows, answer_cached,
}
use load_tester_project.KvServer.Coherence.{
  IsCoherent, IsCoherentBut, no_doubt, run_statement-done, Cached-read_key, Cached-create_key,
}
use load_tester_project.KvServer.Outcomes.{Serves, unchanged, refusal}

module _ (d : Database) where
  -- 200 and the value of the key, if there is one; 404 if there is none; 500 if the query fails.
  -- The database stays as it was. Of a key in doubt the value may be another.
  abbrev pub ReadPostBut : (Bytes → Bool) → Request → Server d → Response → Server d → Type 0
  ReadPostBut x req s r s' =
      ((r.status ≡ 200)
        × ((x req.matched ≡ true) ⊎ (d.contents s.db req.matched ≡ some r.content))
        × (s'.db ≡ s.db))
      ⊎ (((r.status ≡ 404) × (d.contents s.db req.matched ≡ none) × (s'.db ≡ s.db))
          ⊎ ((r.status ≡ 500) × (s'.db ≡ s.db)))

  abbrev pub ReadPost : Request → Server d → Response → Server d → Type 0
  ReadPost req s r s' =
      ((r.status ≡ 200) × (d.contents s.db req.matched ≡ some r.content) × (s'.db ≡ s.db))
      ⊎ (((r.status ≡ 404) × (d.contents s.db req.matched ≡ none) × (s'.db ≡ s.db))
          ⊎ ((r.status ≡ 500) × (s'.db ≡ s.db)))

  pub query_value-rows :
      (k : Bytes) (db : d.Db) (rows : List Bytes)
      → query_value d k db ≡ done rows
      → rows ≡ rows_of (d.contents db k)
  unfolding query_value
  query_value-rows k db rows e = elim (Exec-cases (run_statement d (select_value k) db)) [
    | inl (r, f) ↦
        let same : r.1 ≡ rows = ground (arith, e, f) in
        sym same ∙ d.select_value_law k db r.0 r.1 (run_statement-done d (select_value k) db r f)
    | inr (inl (what, f)) ↦ absurd (ground (arith, e, f))
    | inr (inr (what, f)) ↦ absurd (ground (arith, e, f))
  ]

  -- The reply to the rows of a query that found the key's value, or no row.
  answer_rows-Serves :
      (req : Request) (x : Bytes → Bool) (s s1 : Server d) (rows : List Bytes)
      → IsCoherentBut d x s1
      → s1.db ≡ s.db
      → rows ≡ rows_of (d.contents s.db req.matched)
      → Serves d (λ r. x) (answer_rows d req.matched rows s1) (ReadPostBut x req s)
  unfolding answer_rows
  answer_rows-Serves req x s s1 rows h same e = elim (Option-cases (d.contents s.db req.matched)) [
    | inl absent ↦
        unchanged d (refusal d 404 (codes "Key not Found\n")) s1 h (ground (arith, e, absent))
          (inr (inl (refl, absent, same)))
    | inr (v, there) ↦
        let there' : d.contents s1.db req.matched ≡ some v =
          ap (λ t. d.contents t req.matched) same ∙ there in
        let text = d.text_law s1.db req.matched v there' in
        let c =
          Cached-create_key d x s1 h req.matched (c_str v) s1.db (there' ∙ ap some (sym text))
            (λ q w p. p) in
        record {
          response = refusal d 200 (c_str v);
          after = record { cache = c.after; db = s1.db };
          served = ground (arith, e, there, c.returns);
          coherent = c.coherent;
          as_described = inl (refl, inr (there ∙ ap some (sym text)), same);
        }
  ]

  answer_cached-Serves :
      (req : Request) (x : Bytes → Bool) (s s1 : Server d) (value : Bytes)
      → IsCoherentBut d x s1
      → s1.db ≡ s.db
      → (value ≢ [] → (x req.matched ≡ true) ⊎ (d.contents s.db req.matched ≡ some value))
      → Serves d (λ r. x) (answer_cached d req.matched value s1) (ReadPostBut x req s)
  unfolding answer_cached
  answer_cached-Serves req x s s1 (byte ∷ value) h same hit =
      unchanged d (refusal d 200 (byte ∷ value)) s1 h refl (inl (refl, hit (λ e. cc), same))
  answer_cached-Serves req x s s1 [] h same hit =
      elim (Exec-cases (query_value d req.matched s1.db)) [
        | inl (rows, e) ↦
            let found =
              query_value-rows req.matched s1.db rows e
              ∙ ap (λ t. rows_of (d.contents t req.matched)) same in
            let done_rows : answer_cached d req.matched [] s1 ≡ answer_rows d req.matched rows s1 =
              ground (arith, e) in
            rw done_rows (answer_rows-Serves req x s s1 rows h same found)
        | inr (inl (what, e)) ↦
            unchanged d (refusal d 500 (codes "Error: " ++ what)) s1 h (ground (arith, e))
              (inr (inr (refl, same)))
        | inr (inr (what, e)) ↦
            unchanged d (refusal d 500 (codes "Error: " ++ what)) s1 h (ground (arith, e))
              (inr (inr (refl, same)))
      ]

  pub handle_read-ServesBut :
      (req : Request) (x : Bytes → Bool) (s : Server d)
      → IsCoherentBut d x s
      → Serves d (λ r. x) (handle_read d req s) (ReadPostBut x req s)
  unfolding handle_read
  handle_read-ServesBut req x s h =
      let (c, hit) = Cached-read_key d x s h req.matched in
      let s1 : Server d = record { cache = c.after; db = s.db } in
      let looked : handle_read d req s ≡ answer_cached d req.matched c.answer s1 =
        ground (arith, c.returns) in
      rw looked (answer_cached-Serves req x s s1 c.answer c.coherent refl hit)

  -- On a coherent server the handler ends with a reply and leaves the server coherent. The reply
  -- is 200 with the value of the key in the database, 404 if the key is not there, or 500, and
  -- the database stays as it was. The value may come from the cache.
  pub handle_read-Serves :
      (req : Request) (s : Server d)
      → IsCoherent d s
      → Serves d (λ r. no_doubt d) (handle_read d req s) (ReadPost req s)
  handle_read-Serves req s h =
      let v = handle_read-ServesBut req (no_doubt d) s h in
      record {
        response = v.response;
        after = v.after;
        served = v.served;
        coherent = v.coherent;
        as_described = elim v.as_described [
          | inl (status, inl doubt, same) ↦ absurd (cc doubt)
          | inl (status, inr value, same) ↦ inl (status, value, same)
          | inr rest ↦ inr rest
        ];
      }
