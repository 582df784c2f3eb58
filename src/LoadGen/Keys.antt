-- ===== src/LoadGen/Keys.antt =====
-- Workers that run at once share the counter of keys.
use load_tester_project.Base.{
  ℕ, ◌+◌, ◌%◌, ◌≤◌, List, [], ◌∷◌, ◌++◌, Bytes, codes, ◌≡◌, ◌≢◌, inl, inr, refl, ap, ◌∙◌, arith,
  ◌==◌, if◌then◌else◌, Bool-cases, All, All-map, ◌⊎◌, AllApart,
}
use load_tester_project.Base.Decimal.{to_string, to_string-injective, to_string-IsDigit}
use load_tester_project.Base.Streams.{getline-append}
use load_tester_project.Clients.{Call, get, delete, post, put}
use load_tester_project.KvServer.{split_body}
use load_tester_project.LoadGen.{
  Workload, put_all, get_all, get_popular, get_put, choose, create_numbered, get_numbered,
}

-- Each worker's counter, by its number.
abbrev bump : ℕ → (ℕ → ℕ) → ℕ → ℕ
bump i counters = λ j. if j == i then counters j + 1 else counters j

-- The requests of the workers whose numbers the schedule names, one round each. The shared counter
-- is read and incremented in one atomic step.
unfoldable pub interleave : Workload → List ℕ → (ℕ → ℕ) → ℕ → List Call
interleave type [] counters g = []
interleave type (i ∷ schedule) counters g =
    let chosen = choose type (counters i) g in
    chosen.0 ∷ interleave type schedule (bump i counters) chosen.1

-- The keys that the server reads from the create requests.
unfoldable pub created : List Call → List Bytes
created [] = []
created (post path body ∷ calls) = (split_body body).0 ∷ created calls
created (get path ∷ calls) = created calls
created (delete path ∷ calls) = created calls
created (put path body ∷ calls) = created calls

abbrev name : ℕ → Bytes
name n = codes "k_" ++ to_string n

name_no_space : (n : ℕ) → All (λ c. c ≢ b' ') (name n)
name_no_space n = (
  (λ e. cc e),
  (
    (λ e. cc e),
    All-map _ _ (λ c d e. omega (arith, d.0, d.1, e)) (to_string n) (to_string-IsDigit n),
  ),
)

split_key :
    (key value : Bytes) → All (λ c. c ≢ b' ') key → (split_body (key ++ b' ' ∷ value)).0 ≡ key
unfolding split_body
split_key key value a = rw (getline-append b' ' key value a) refl

split_numbered :
    (n : ℕ) → (split_body (name n ++ (codes " " ++ (codes "v_" ++ to_string n)))).0 ≡ name n
split_numbered n = split_key (name n) (codes "v_" ++ to_string n) (name_no_space n)

name-injective : (m n : ℕ) → name m ≡ name n → m ≡ n
name-injective m n e = to_string-injective m n (ground (arith, e))

-- The request of a round creates the key of the shared counter and moves it on, or creates none.
abbrev Chosen : Call × ℕ → ℕ → Type 0
Chosen chosen g =
    (((calls : List Call) → created (chosen.0 ∷ calls) ≡ name g ∷ created calls)
      × (chosen.1 ≡ g + 1))
    ⊎ (((calls : List Call) → created (chosen.0 ∷ calls) ≡ created calls) × (g ≤ chosen.1))

created-numbered :
    (g : ℕ) (calls : List Call) → created (create_numbered g ∷ calls) ≡ name g ∷ created calls
unfolding created create_numbered
created-numbered g calls = ap (λ k. k ∷ created calls) (split_numbered g)

created-get : (path : Bytes) (calls : List Call) → created (get path ∷ calls) ≡ created calls
unfolding created
created-get path calls = refl

choose_lem : (type : Workload) (counter g : ℕ) → Chosen (choose type counter g) g
unfolding choose
choose_lem put_all counter g = inl (created-numbered g, refl)
choose_lem get_all counter g = inr (unfold get_numbered in created-get _, omega arith)
choose_lem get_popular counter g = inr (created-get _, omega arith)
choose_lem get_put counter g = elim (Bool-cases (counter % 2 == 0)) [
  | inl even ↦ rw even (inl (created-numbered g, refl))
  | inr odd ↦ rw odd (inr (unfold get_numbered in created-get _, omega arith))
]

-- The key is that of a number that the counter had not passed.
abbrev From : ℕ → Bytes → Type 0
From g k = (n : ℕ) × (g ≤ n) × (k ≡ name n)

From-le : (g h : ℕ) → g ≤ h → (k : Bytes) → From h k → From g k
From-le g h le k (n, p, e) = (n, omega arith, e)

created-From :
    (type : Workload) (schedule : List ℕ) (counters : ℕ → ℕ) (g : ℕ)
    → All (From g) (created (interleave type schedule counters g))
unfolding interleave
created-From type [] counters g = unfold created in tt
created-From type (i ∷ schedule) counters g =
    let chosen = choose type (counters i) g in
    let rest = created-From type schedule (bump i counters) chosen.1 in
    elim (choose_lem type (counters i) g) [
      | inl (made, next) ↦
          rw (made _)
            ((g, omega arith, refl), All-map _ _ (From-le g chosen.1 (omega arith)) _ rest)
      | inr (skipped, le) ↦ rw (skipped _) (All-map _ _ (From-le g chosen.1 le) _ rest)
    ]

-- However the rounds of the workers interleave, for any workload, counters and start of the
-- shared counter, no two create requests have the same key, as the server reads it. The shared
-- counter is read and moved on in one atomic step.
pub created-AllApart :
    (type : Workload) (schedule : List ℕ) (counters : ℕ → ℕ) (g : ℕ)
    → AllApart (created (interleave type schedule counters g))
unfolding interleave
created-AllApart type [] counters g = unfold created in tt
created-AllApart type (i ∷ schedule) counters g =
    let chosen = choose type (counters i) g in
    let rest = created-AllApart type schedule (bump i counters) chosen.1 in
    let from = created-From type schedule (bump i counters) chosen.1 in
    elim (choose_lem type (counters i) g) [
      | inl (made, next) ↦ rw (made _) (All-map _ _ (other g chosen.1 next) _ from, rest)
      | inr (skipped, le) ↦ rw (skipped _) rest
    ]
  where
    other : (g h : ℕ) → h ≡ g + 1 → (k : Bytes) → From h k → name g ≢ k
    other g h e k (n, p, q) same = let m : g ≡ n = name-injective g n (same ∙ q) in omega arith
