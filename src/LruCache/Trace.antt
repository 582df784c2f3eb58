-- ===== src/LruCache/Trace.antt =====
-- Sequences of calls of the cache, against the same sequence on the list of pairs.
use load_tester_project.Base.{
  ℕ, ◌<◌, List, [], ◌∷◌, Option, some, Bytes, ◌≡◌, refl, ap, ◌∙◌, arith, ◌≤◌, length, length-map,
}
use load_tester_project.Base.Decimal.{ℤ}
use load_tester_project.LruCache.{
  LruCache, read_key, create_key, update_key, delete_key, init, ◌>>=◌,
}
use load_tester_project.LruCache.Nodes.{pair}
use load_tester_project.LruCache.Eviction.{create_key-Gives}
use load_tester_project.LruCache.Refinement.{
  IsValid, pairs, Gives, init-IsValid, read_key-Gives, update_key-Gives, delete_key-Gives,
}
use load_tester_project.LruCache.Spec.{Pairs}
use load_tester_project.LruCache.Spec

pub data Call : Type 0 where
  read : Bytes → Call
  create : Bytes → Bytes → Call
  update : Bytes → Bytes → Call
  delete : Bytes → Call

pub data Answer : Type 0 where
  value : Bytes → Answer
  code : ℤ → Answer

pub tagged {ℓ κ} : {A : Type ℓ} {S : Type κ} → (A → Answer) → A × S → Answer × S
tagged f (a, s) = (f a, s)

unfoldable pub call : Call → LruCache → Option (Answer × LruCache)
unfolding tagged
call (read k) c = do r ← read_key k c; some (tagged value r)
call (create k v) c = do r ← create_key k v c; some (tagged code r)
call (update k v) c = do r ← update_key k v c; some (tagged code r)
call (delete k) c = do r ← delete_key k c; some (tagged code r)

unfoldable pub spec_call : ℕ → Call → Pairs → Answer × Pairs
unfolding tagged
spec_call capacity (read k) l = tagged value (Spec.read k l)
spec_call capacity (create k v) l = tagged code (Spec.create capacity k v l)
spec_call capacity (update k v) l = tagged code (Spec.update k v l)
spec_call capacity (delete k) l = tagged code (Spec.delete k l)

unfoldable pub run : List Call → LruCache → Option (List Answer × LruCache)
unfolding call
run [] c = some ([], c)
run (q ∷ qs) c = do r ← call q c; rs ← run qs r.1; some (r.0 ∷ rs.0, rs.1)

unfoldable pub spec_run : ℕ → List Call → Pairs → List Answer × Pairs
unfolding spec_call
spec_run capacity [] l = ([], l)
spec_run capacity (q ∷ qs) l =
    let r = spec_call capacity q l in let rs = spec_run capacity qs r.1 in (r.0 ∷ rs.0, rs.1)

tagged-Gives :
    {A : Type 0} (f : A → Answer) (c : LruCache) (o : Option (A × LruCache)) (spec : A × Pairs)
    → Gives c o spec
    → Gives c (o >>= λ r. some (tagged f r)) (tagged f spec)
unfolding tagged
tagged-Gives f c o spec g = record {
  after = g.after;
  returns = rw g.returns;
  valid = g.valid;
  contents = g.contents;
  same_capacity = g.same_capacity;
}

call-Gives :
    (q : Call) (c : LruCache) → IsValid c → Gives c (call q c) (spec_call c.capacity q (pairs c))
unfolding call spec_call
call-Gives (read k) c i = tagged-Gives value c _ _ (read_key-Gives k c i)
call-Gives (create k v) c i = tagged-Gives code c _ _ (create_key-Gives k v c i)
call-Gives (update k v) c i = tagged-Gives code c _ _ (update_key-Gives k v c i)
call-Gives (delete k) c i = tagged-Gives code c _ _ (delete_key-Gives k c i)

-- From a valid cache, every sequence of calls runs without undefined behaviour, answers as the
-- specification does, and leaves a valid cache that holds the specification's pairs.
pub run-Gives :
    (qs : List Call) (c : LruCache)
    → IsValid c
    → Gives c (run qs c) (spec_run c.capacity qs (pairs c))
unfolding run spec_run
run-Gives [] c i = record {
  after = c;
  returns = refl;
  valid = i;
  contents = refl;
  same_capacity = refl;
}
run-Gives (q ∷ qs) c i =
    let g = call-Gives q c i in
    let t = run-Gives qs g.after g.valid in
    let rest = spec_run c.capacity qs (spec_call c.capacity q (pairs c)).1 in
    let same : spec_run g.after.capacity qs (pairs g.after) ≡ rest =
      rw (g.same_capacity, g.contents) in
    record {
      after = t.after;
      returns = rw g.returns (
          rw t.returns (ap (λ x. some ((spec_call c.capacity q (pairs c)).0 ∷ x.0, t.after)) same));
      valid = t.valid;
      contents = t.contents ∙ ap (λ x. x.1) same;
      same_capacity = t.same_capacity ∙ g.same_capacity;
    }

-- Every sequence of calls on a new cache of positive capacity runs without undefined behaviour
-- and gives the answers and the pairs, in order of use, that the same sequence gives on the list
-- of pairs; the cache never holds more pairs than its capacity.
pub run-init :
    (capacity : ℕ) (qs : List Call)
    → 0 < capacity
    → (c : LruCache) × (run qs (init capacity) ≡ some ((spec_run capacity qs []).0, c))
      × (pairs c ≡ (spec_run capacity qs []).1)
      × (length (pairs c) ≤ capacity)
unfolding init
run-init capacity qs h =
    let valid = (init-IsValid capacity h).0 in
    let g = run-Gives qs (init capacity) valid in
    (
      g.after,
      g.returns,
      g.contents,
      omega (arith, length-map pair g.after.cache_list, g.valid.bounded, g.same_capacity),
    )
