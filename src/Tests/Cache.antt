-- ===== src/Tests/Cache.antt =====
-- The cache: a hit, an eviction, an update and a deletion.
use load_tester_project.Base.{◌≤◌, List, [], ◌∷◌, some, codes, ◌≡◌, refl, arith, length, str_eq}
use load_tester_project.Base.Decimal.{pos}
use load_tester_project.LruCache.{LruCache, init}
use load_tester_project.LruCache.Refinement.{pairs}
use load_tester_project.LruCache.Spec
use load_tester_project.LruCache.Trace.{
  Call, create, update, delete, read, value, code, run, spec_run, run-init,
}

abbrev calls : List Call
calls =
    create (codes "a") (codes "1")
    ∷ create (codes "b") (codes "2")
    ∷ read (codes "a")
    ∷ create (codes "c") (codes "3")
    ∷ read (codes "b")
    ∷ update (codes "c") (codes "4")
    ∷ delete (codes "a")
    ∷ []

-- The third pair evicts `b`, the least recently used.
calls_spec : spec_run 2 calls [] ≡ (
  code (pos 0)
      ∷ code (pos 0)
      ∷ value (codes "1")
      ∷ code (pos 0)
      ∷ value []
      ∷ code (pos 0)
      ∷ code (pos 0)
      ∷ [],
  (codes "c", codes "4") ∷ [],
)
unfolding spec_run Spec.read Spec.create Spec.update Spec.delete str_eq
calls_spec = refl

run-init_example :
    (c : LruCache) × (run calls (init 2) ≡ some ((spec_run 2 calls []).0, c))
    × (pairs c ≡ (spec_run 2 calls []).1)
    × (length (pairs c) ≤ 2)
run-init_example = run-init 2 calls (omega arith)
