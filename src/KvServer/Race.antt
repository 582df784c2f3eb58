-- ===== src/KvServer/Race.antt =====
-- Two requests at once: `handle_read` asks the database and fills the cache in two steps, and an
-- update may run between them.
use load_tester_project.Base.{
  true, not, ◌&&◌, List, [], ◌∷◌, Option, none, some, Bytes, ◌≡◌, ◌≢◌, inl, inr, refl, sym, ap, ◌∙◌,
  arith, Option-cases, Bool-cases,
}
use load_tester_project.Base.Decimal.{ℤ}
use load_tester_project.Base.Streams.{c_str}
use load_tester_project.Database.{Database, done, Exec-cases, Commit-cases, rows_of}
use load_tester_project.LruCache.{LruCache}
use load_tester_project.LruCache as Cache
use load_tester_project.LruCache.Eviction.{create_key-Gives}
use load_tester_project.LruCache.Refinement.{IsValid, pairs, read_key-Gives, delete_key-Gives}
use load_tester_project.LruCache.Entries.{lookup-delete, lookup-create, read_hit}
use load_tester_project.LruCache.Spec
use load_tester_project.KvServer.{
  Request, Response, Server, run_statement, update_statement, handle_read, handle_update,
  answer_rows, answer_cached, no_rows, query_value,
}
use load_tester_project.KvServer.Coherence.{IsCoherent, no_doubt}
use load_tester_project.KvServer.Outcomes.{written_self}
use load_tester_project.KvServer.Updates.{handle_update-Serves}
use load_tester_project.KvServer.Reads.{query_value-rows}

module _ (d : Database) where
  -- An update that succeeds has dropped the key from the cache.
  updated_cache :
      (req : Request) (s s' : Server d) (r : Response)
      → handle_update d req s ≡ some (r, s')
      → r.status ≡ 200
      → (a : ℤ) × (Cache.delete_key req.matched s.cache ≡ some (a, s'.cache))
  unfolding handle_update
  updated_cache req s s' r e ok = elim (Exec-cases (run_statement d (update_statement req) s.db)) [
    | inl (q, f) ↦ elim (Bool-cases (no_rows d q.1 && not req.is_replication)) [
      | inl refused ↦ absurd (ground (arith, e, f, refused, ok))
      | inr went_on ↦ elim (Commit-cases (d.commit q.0)) [
        | inl (db', g) ↦ elim (Option-cases (Cache.delete_key req.matched s.cache)) [
          | inl broken ↦ absurd (ground (arith, e, f, went_on, g, broken))
          | inr (a, deleted) ↦ (a.0, ground (arith, e, f, went_on, g, deleted))
        ]
        | inr (inl (what, g)) ↦ absurd (ground (arith, e, f, went_on, g, ok))
        | inr (inr (what, db', g)) ↦ absurd (ground (arith, e, f, went_on, g, ok))
      ]
    ]
    | inr (inl (what, f)) ↦ absurd (ground (arith, e, f, ok))
    | inr (inr (what, f)) ↦ absurd (ground (arith, e, f, ok))
  ]

  dropped :
      (req : Request) (s s' : Server d) (r : Response)
      → IsCoherent d s
      → handle_update d req s ≡ some (r, s')
      → r.status ≡ 200
      → IsValid s'.cache × (Spec.lookup req.matched (pairs s'.cache) ≡ none)
  dropped req s s' r h e ok =
      let (a, deleted) = updated_cache req s s' r e ok in
      let g = delete_key-Gives req.matched s.cache h.valid in
      let same : g.after ≡ s'.cache = ground (arith, deleted, g.returns) in
      (rw (← same) g.valid, rw (← same) (rw g.contents (lookup-delete req.matched (pairs s.cache))))

  -- A successful update has stored its value.
  stored :
      (req : Request) (s s' : Server d) (r : Response)
      → IsCoherent d s
      → handle_update d req s ≡ some (r, s')
      → r.status ≡ 200
      → d.contents s'.db req.matched ≡ some req.body
  stored req s s' r h e ok =
      let w = handle_update-Serves d req (no_doubt d) s h in
      let reply : w.response ≡ r = ground (arith, e, w.served) in
      let state : w.after ≡ s' = ground (arith, e, w.served) in
      elim w.as_described [
        | inl post ↦
            ap (λ t. d.contents t.db req.matched) (sym state)
            ∙ post.2 req.matched
            ∙ written_self d (d.contents s.db) req.matched (some req.body)
        | inr (inl post) ↦ absurd (
            let was : w.response.status ≡ 200 = ap (λ t. t.status) reply ∙ ok in
            omega (arith, post.0, was))
        | inr (inr post) ↦ absurd (
            let was : w.response.status ≡ 200 = ap (λ t. t.status) reply ∙ ok in
            omega (arith, post.0, was))
      ]

  abbrev ok_reply : Bytes → Response
  ok_reply content = record { status = 200; content = content; connection_close = true }

  cached_value :
      (key value : Bytes) (s : Server d)
      → value ≢ []
      → answer_cached d key value s ≡ some (ok_reply value, s)
  unfolding answer_cached
  cached_value key [] s ne = absurd (ne refl)
  cached_value key (c ∷ value) s ne = refl

  -- With the value in the cache, a read answers it.
  answers_cached :
      (req : Request) (s : Server d) (value : Bytes)
      → IsValid s.cache
      → Spec.lookup req.matched (pairs s.cache) ≡ some value
      → value ≢ []
      → (s' : Server d) × (handle_read d req s ≡ some (ok_reply value, s'))
  unfolding handle_read
  answers_cached req s value v hit ne =
      let g = read_key-Gives req.matched s.cache v in
      let answer = read_hit req.matched value (pairs s.cache) hit in
      let s' : Server d = record { cache = g.after; db = s.db } in
      (s', ground (arith, g.returns, answer, cached_value req.matched value s' ne))

  first_row : (x : Option Bytes) (v : Bytes) (rest : List Bytes) → rows_of x ≡ v ∷ rest → x ≡ some v
  first_row none v rest e = absurd (cc e)
  first_row (some w) v rest e = ground (arith, e)

  -- On a coherent server a read has missed the cache and its query has returned `old`, not the
  -- empty text, in the state `s`. An update of the key then succeeds. The read goes on, answers
  -- `old`, which was the value in `s`, and caches it. The next `handle_read` answers `old` too,
  -- although the database has the new value.
  pub stale_read :
      (update read : Request) (s s' : Server d) (r : Response) (old : Bytes) (rest : List Bytes)
      → IsCoherent d s
      → read.matched ≡ update.matched
      → query_value d read.matched s.db ≡ done (old ∷ rest)
      → c_str old ≢ []
      → handle_update d update s ≡ some (r, s')
      → r.status ≡ 200
      → (late after : Server d) × (d.contents s.db read.matched ≡ some old)
        × (answer_rows d read.matched (old ∷ rest) s' ≡ some (ok_reply (c_str old), late))
        × (d.contents late.db read.matched ≡ some update.body)
        × (handle_read d read late ≡ some (ok_reply (c_str old), after))
  unfolding answer_rows
  stale_read update read s s' r old rest h same seen ne e ok =
      let (valid, gone) = dropped update s s' r h e ok in
      let key = read.matched in
      let absent : Spec.lookup key (pairs s'.cache) ≡ none = rw same gone in
      let g = create_key-Gives key (c_str old) s'.cache valid in
      let late : Server d = record { cache = g.after; db = s'.db } in
      let there : Spec.lookup key (pairs g.after) ≡ some (c_str old) =
        ap (Spec.lookup key) g.contents
        ∙ lookup-create s'.cache.capacity key (c_str old) (pairs s'.cache) absent in
      let (after, answered) = answers_cached read late (c_str old) g.valid there ne in
      (
        late,
        after,
        first_row _ old rest (sym (query_value-rows d key s.db (old ∷ rest) seen)),
        ground (arith, g.returns),
        ap (d.contents s'.db) same ∙ stored update s s' r h e ok,
        answered,
      )
