-- ===== src/Backend/Identity.antt =====
-- The names of a backend tell its address: two backends with one name have one ip and one port.
use load_tester_project.Base.{
  ℕ, [], ◌∷◌, ◌++◌, ◌≡◌, ◌≢◌, refl, Bytes, str_eq, str_eq_iff, All, append_assoc, Bool_ext,
}
use load_tester_project.Base.Decimal.{
  int_to_string, int_to_string-injective, int_to_string-no_colon,
}
use load_tester_project.Backend.{Backend, node_id, spaced_id}

All_hits : (c : ℕ) (s t : Bytes) → All (λ x. x ≢ c) (s ++ c ∷ t) → ⊥
All_hits c [] t h = h.0 refl
All_hits c (x ∷ s) t h = All_hits c s t h.1

-- A text is split in one way at its last colon.
split_at_colon :
    (a b p q : Bytes)
    → All (λ x. x ≢ b':') p
    → All (λ x. x ≢ b':') q
    → a ++ b':' ∷ p ≡ b ++ b':' ∷ q
    → (a ≡ b) × (p ≡ q)
split_at_colon [] [] p q hp hq e = (refl, cc)
split_at_colon [] (y ∷ b) p q hp hq e =
    let e' : p ≡ b ++ b':' ∷ q = cc in absurd (All_hits b':' b q (rw e' at hp))
split_at_colon (x ∷ a) [] p q hp hq e =
    let e' : q ≡ a ++ b':' ∷ p = cc in absurd (All_hits b':' a p (rw e' at hq))
split_at_colon (x ∷ a) (y ∷ b) p q hp hq e =
    let (a_eq, p_eq) = split_at_colon a b p q hp hq (cc) in let x_eq : x ≡ y = cc in (cc, p_eq)

snoc-injective : (a b : Bytes) (c : ℕ) → a ++ c ∷ [] ≡ b ++ c ∷ [] → a ≡ b
snoc-injective [] [] c e = refl
snoc-injective [] (y ∷ []) c e = cc
snoc-injective [] (y ∷ z ∷ b) c e = cc
snoc-injective (x ∷ []) [] c e = cc
snoc-injective (x ∷ z ∷ a) [] c e = cc
snoc-injective (x ∷ a) (y ∷ b) c e =
    let t : a ≡ b = snoc-injective a b c (cc) in let x_eq : x ≡ y = cc in cc

abbrev pub SameAddress : Backend → Backend → Type 0
SameAddress a b = (a.ip ≡ b.ip) × (a.port ≡ b.port)

pub node_id-injective : (a b : Backend) → node_id a ≡ node_id b → SameAddress a b
unfolding node_id
node_id-injective a b e =
    let (ips, ports) =
      split_at_colon a.ip b.ip _ _ (int_to_string-no_colon a.port) (int_to_string-no_colon b.port)
        e in
    (ips, int_to_string-injective a.port b.port ports)

pub node_id-eq : (a b : Backend) → SameAddress a b → node_id a ≡ node_id b
unfolding node_id
node_id-eq a b h = cc (h.0, h.1)

spaced_id-injective : (a b : Backend) → spaced_id a ≡ spaced_id b → SameAddress a b
unfolding spaced_id
spaced_id-injective a b e =
    let e' : (a.ip ++ b' ' ∷ []) ++ b':' ∷ int_to_string a.port
        ≡ (b.ip ++ b' ' ∷ []) ++ b':' ∷ int_to_string b.port =
      simp append_assoc e in
    let (ips, ports) =
      split_at_colon _ _ _ _ (int_to_string-no_colon a.port) (int_to_string-no_colon b.port) e' in
    (snoc-injective a.ip b.ip b' ' ips, int_to_string-injective a.port b.port ports)

spaced_id-eq : (a b : Backend) → SameAddress a b → spaced_id a ≡ spaced_id b
unfolding spaced_id
spaced_id-eq a b h = cc (h.0, h.1)

-- The two spellings of a backend's name tell the same backends apart.
pub spaced_id-node_id :
    (a b : Backend) → str_eq (spaced_id a) (spaced_id b) ≡ str_eq (node_id a) (node_id b)
spaced_id-node_id a b =
    Bool_ext _ _
      (λ h. (str_eq_iff _ _).1 (node_id-eq a b (spaced_id-injective a b ((str_eq_iff _ _).0 h))))
      (λ h. (str_eq_iff _ _).1 (spaced_id-eq a b (node_id-injective a b ((str_eq_iff _ _).0 h))))
