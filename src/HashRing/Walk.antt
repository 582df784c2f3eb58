-- ===== src/HashRing/Walk.antt =====
-- The loop of `getNodes` against the list of the backends met clockwise from the key.
use load_tester_project.Base.{
  ℕ, zero, suc, ◌+◌, ◌-◌, ◌<◌, Bool, false, ◌&&◌, List, [], ◌∷◌, ◌++◌, map, some, Bytes, ◌≡◌, refl,
  sym, ap, ◌∙◌, ◌⊎◌, inl, inr, arith, length, take, take-nil, ltb, if◌then◌else◌, Bool-cases,
  append-nil, append_assoc, length-append,
}
use load_tester_project.Base.StdMap.{lower_bound, before, before-append-lower_bound}
use load_tester_project.Base.StdSet.{contains, insert, count_new, length-insert}
use load_tester_project.Backend.{Backend, node_id}
use load_tester_project.HashRing.{HashRing, walk, wrap, hash_string}

abbrev pub Entries : Type 0
Entries = List (ℕ × Backend)

abbrev pub backends_of : Entries → List Backend
backends_of = map (λ e. e.1)

-- The backends of a row of entries, each where its name first appears.
unfoldable pub distinct : List Bytes → List Backend → List Backend
distinct seen [] = []
distinct seen (b ∷ bs) =
    let old = distinct seen bs in
    let new = b ∷ distinct (insert (node_id b) seen) bs in
    if contains (node_id b) seen then old else new

-- One turn of the ring from hash `k`.
unfoldable pub turn : ℕ → Entries → Entries
turn k m = lower_bound k m ++ before k m

-- All backends of the ring, in the order in which the key prefers them.
unfoldable pub preference : (Bytes → ℕ) → Bytes → HashRing → List Backend
unfolding turn distinct
preference hasher key h = distinct [] (backends_of (turn (hash_string hasher key) h.ring))

-- From `it` on, wrapping at the end of the ring, the entries are `xs`: either the end is still to
-- come, or the iterator has wrapped.
Ahead : Entries → Entries → Entries → Type 0
Ahead m it xs =
    ((ys zs : Entries) × (it ++ ys ≡ xs) × (ys ++ zs ≡ m)) ⊎ ((zs : Entries) × (it ≡ xs ++ zs))

Ahead-next :
    (m it : Entries) (x : ℕ × Backend) (xs : Entries)
    → Ahead m it (x ∷ xs)
    → (it' : Entries) × (wrap m it ≡ x ∷ it') × Ahead m it' xs
unfolding Ahead wrap
Ahead-next m [] x xs (inl (ys, zs, e, f)) = (xs ++ zs, sym f ∙ ap (λ t. t ++ zs) e, inr (zs, refl))
Ahead-next m (y ∷ it) x xs (inl (ys, zs, e, f)) = (it, cc, inl (ys, zs, cc, f))
Ahead-next m [] x xs (inr (zs, e)) = absurd (cc)
Ahead-next m (y ∷ it) x xs (inr (zs, e)) = (it, cc, inr (zs, cc))

pub length-distinct :
    (seen : List Bytes) (bs : List Backend)
    → length (distinct seen bs) ≡ count_new seen (map node_id bs)
unfolding distinct count_new
length-distinct seen [] = refl
length-distinct seen (b ∷ bs) =
    ground (arith, length-distinct seen bs, length-distinct (insert (node_id b) seen) bs)

-- The test of the loop.
abbrev goes_on : ℕ → ℕ → List Bytes → List Backend → Bool
goes_on factor unique seen out = ltb (length out) factor && ltb (length seen) unique

nothing_left :
    (factor unique : ℕ) (seen : List Bytes) (out bs : List Backend)
    → goes_on factor unique seen out ≡ false
    → length seen + length bs ≡ unique
    → out ++ take (factor - length out) bs ≡ out
nothing_left factor unique seen out [] h k = rw take-nil (append-nil out)
nothing_left factor unique seen out (b ∷ bs) h k =
    let full : factor - length out ≡ 0 = ground arith in rw full (append-nil out)

take_first :
    (factor : ℕ) (out : List Backend) (b : Backend) (bs : List Backend)
    → length out < factor
    → (out ++ b ∷ []) ++ take (factor - length (out ++ b ∷ [])) bs
      ≡ out ++ take (factor - length out) (b ∷ bs)
take_first factor out b bs h =
    let left : factor - length out ≡ suc (factor - length (out ++ b ∷ [])) =
      omega (arith, length-append out (b ∷ [])) in
    rw left (append_assoc out (b ∷ []) _)

-- The walk of `xs` entries, with fuel above their number, appends the first new backends.
walk-distinct :
    (m : Entries) (factor unique : ℕ) (xs it : Entries) (seen : List Bytes) (out : List Backend)
    (fuel : ℕ)
    → Ahead m it xs
    → length xs < fuel
    → length seen + length (distinct seen (backends_of xs)) ≡ unique
    → walk fuel m factor unique it seen out
      ≡ some (out ++ take (factor - length out) (distinct seen (backends_of xs)))
unfolding walk distinct
walk-distinct m factor unique xs it seen out zero a h k = elim h [ ]
walk-distinct m factor unique [] it seen out (suc fuel) a h k =
    let done : goes_on factor unique seen out ≡ false = ground arith in
    rw (done, walk) (ap some (sym (nothing_left factor unique seen out [] done k)))
walk-distinct m factor unique (x ∷ xs) it seen out (suc fuel) a h k =
    elim (Bool-cases (goes_on factor unique seen out)) [
      | inl more ↦
          let (it', w, a') = Ahead-next m it x xs a in
          elim (Bool-cases (contains (node_id x.1) seen)) [
            | inl old ↦
                rw (more, w, old, walk, distinct)
                  (walk-distinct m factor unique xs it' seen out fuel a' (omega arith)
                    (rw (old, distinct) at k))
            | inr new ↦
                rw (more, w, new, walk, distinct)
                  (walk-distinct m factor unique xs it' (insert (node_id x.1) seen)
                      (out ++ x.1 ∷ []) fuel a' (omega arith)
                      (ground (arith, new, k, length-insert (node_id x.1) seen))
                    ∙ ap some (take_first factor out x.1 _ (ground arith)))
          ]
      | inr done ↦ rw (done, walk) (ap some (sym (nothing_left factor unique seen out _ done k)))
    ]

length-turn : (k : ℕ) (m : Entries) → length (turn k m) ≡ length m
unfolding turn
length-turn k m = omega (
  arith,
  length-append (lower_bound k m) (before k m),
  length-append (before k m) (lower_bound k m),
  ap length (before-append-lower_bound k m),
)

-- The whole walk of one turn, from the iterator that `lower_bound` gives.
pub walk-turn :
    (m : Entries) (k factor unique : ℕ)
    → length (distinct [] (backends_of (turn k m))) ≡ unique
    → walk (suc (length m)) m factor unique (lower_bound k m) [] []
      ≡ some (take factor (distinct [] (backends_of (turn k m))))
walk-turn m k factor unique h =
    let none_yet : factor - 0 ≡ factor = omega arith in
    rw none_yet at (
      walk-distinct m factor unique (turn k m) (lower_bound k m) [] [] (suc (length m))
        (unfold Ahead turn in
          inl (before k m, lower_bound k m, refl, before-append-lower_bound k m))
        (omega (arith, length-turn k m)) (omega (arith, h)))
