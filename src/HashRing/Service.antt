-- ===== src/HashRing/Service.antt =====
-- The promise of the ring to its callers: what `getNodes` returns, as a set of replicas.
use load_tester_project.Base.{
  ℕ, zero, suc, min, List, [], ◌∷◌, some, Bytes, ◌≡◌, refl, ap, ◌∙◌, arith, length, take,
  length-take, All, All-take, Any, ◌≤◌,
}
use load_tester_project.Backend.{Backend}
use load_tester_project.Backend.Identity.{SameAddress}
use load_tester_project.HashRing.{HashRing, get_nodes, unique_count, hash_string}
use load_tester_project.HashRing.Walk.{preference}
use load_tester_project.HashRing.Lookup.{get_nodes-preference, unique_count-distinct}
use load_tester_project.HashRing.Replicas.{
  AllDifferent, preference-AllDifferent, preference-All, preference-Any,
}

pub AllDifferent-take : (n : ℕ) (bs : List Backend) → AllDifferent bs → AllDifferent (take n bs)
AllDifferent-take zero bs h = tt
AllDifferent-take (suc n) [] h = tt
AllDifferent-take (suc n) (b ∷ bs) h = (All-take _ n bs h.0, AllDifferent-take n bs h.1)

module _ (hasher : Bytes → ℕ) (key : Bytes) (factor : ℕ) (h : HashRing) where
  -- `getNodes` returns pairwise different backends of the ring: `factor` of them, or all if the
  -- ring has fewer. `P` is any property that every backend on the ring has.
  pub get_nodes_replicas :
      (P : Backend → Type 0)
      → All (λ e. P e.1) h.ring
      → (ns : List Backend) × (get_nodes hasher key factor h ≡ some ns)
        × AllDifferent ns
        × All P ns
        × (length ns ≡ min factor (unique_count h.ring))
  get_nodes_replicas P a =
      let all = preference hasher key h in
      (
        take factor all,
        get_nodes-preference hasher key h factor,
        AllDifferent-take factor all (preference-AllDifferent hasher key h),
        All-take P factor all (preference-All hasher key h P a),
        length-take factor all
            ∙ ap (min factor)
                (unfold preference in unique_count-distinct (hash_string hasher key) h.ring),
      )

  -- With a factor of at least the number of backends, every backend of the ring is among those
  -- that `getNodes` returns.
  get_nodes_complete :
      (b : Backend)
      → Any (λ e. SameAddress b e.1) h.ring
      → unique_count h.ring ≤ factor
      → (ns : List Backend) × (get_nodes hasher key factor h ≡ some ns) × Any (SameAddress b) ns
  get_nodes_complete b there enough =
      let all = preference hasher key h in
      let size : length all ≡ unique_count h.ring =
        unfold preference in unique_count-distinct (hash_string hasher key) h.ring in
      (
        all,
        get_nodes-preference hasher key h factor ∙ ap some (take_all factor all (omega arith)),
        preference-Any hasher key h b there,
      )
    where
      take_all : (n : ℕ) (bs : List Backend) → length bs ≤ n → take n bs ≡ bs
      take_all zero [] h = refl
      take_all zero (b ∷ bs) h = absurd (omega arith)
      take_all (suc n) [] h = refl
      take_all (suc n) (b ∷ bs) h = ap (◌∷◌ b) (take_all n bs (omega arith))
