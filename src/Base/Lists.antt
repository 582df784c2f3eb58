-- ===== src/Base/Lists.antt =====
-- Lists measured and cut by native numbers, and predicates on lists.
use Prim.Native.Nat.{ℕ, zero, suc, ◌+◌, ◌-◌, ◌≤◌, min}
use mathlib.Core.Path.{◌≡◌, refl, ap}
use mathlib.Core.Logic.{◌⊎◌, inl, inr, ◌≢◌}
use mathlib.Core.Bool.{Bool, true, false, ◌&&◌}
use mathlib.Core.List.{List, [], ◌∷◌, ◌++◌, map}
use native.Mathlib.Omega.{arith}
use load_tester_project.Base.Tests.{if◌then◌else◌, Bool-cases}

module _ {ℓ} {A : Type ℓ} where
  abbrev pub length : List A → ℕ
  length [] = 0
  length (x ∷ xs) = suc (length xs)

  abbrev pub take : ℕ → List A → List A
  take zero xs = []
  take (suc n) [] = []
  take (suc n) (x ∷ xs) = x ∷ take n xs

  abbrev pub drop : ℕ → List A → List A
  drop zero xs = xs
  drop (suc n) [] = []
  drop (suc n) (x ∷ xs) = drop n xs

  -- The members that pass a test, in order.
  abbrev pub select : (A → Bool) → List A → List A
  select p [] = []
  select p (x ∷ xs) = let rest = select p xs in if p x then x ∷ rest else rest

  abbrev pub All {κ} : (A → Type κ) → List A → Type κ
  All P [] = Unit
  All P (x ∷ xs) = P x × All P xs

  -- No member comes twice.
  abbrev pub AllApart : List A → Type ℓ
  AllApart [] = Unit
  AllApart (x ∷ xs) = All (λ y. x ≢ y) xs × AllApart xs

  abbrev pub Any : (A → Type 0) → List A → Type 0
  Any P [] = ⊥
  Any P (x ∷ xs) = P x ⊎ Any P xs

module _ {ℓ} {A : Type ℓ} where
  pub length-append : (xs ys : List A) → length (xs ++ ys) ≡ length xs + length ys
  length-append [] ys = omega arith
  length-append (x ∷ xs) ys = omega (arith, length-append xs ys)

  pub length-take : (n : ℕ) (xs : List A) → length (take n xs) ≡ min n (length xs)
  length-take zero xs = omega arith
  length-take (suc n) [] = omega arith
  length-take (suc n) (x ∷ xs) = omega (arith, length-take n xs)

  pub length-drop : (n : ℕ) (xs : List A) → length (drop n xs) ≡ length xs - n
  length-drop zero xs = omega arith
  length-drop (suc n) [] = omega arith
  length-drop (suc n) (x ∷ xs) = omega (arith, length-drop n xs)

  pub take-nil : (n : ℕ) → ◌≡◌ {A = List A} (take n []) []
  take-nil zero = refl
  take-nil (suc n) = refl

  pub take-append-drop : (n : ℕ) (xs : List A) → take n xs ++ drop n xs ≡ xs
  take-append-drop zero xs = refl
  take-append-drop (suc n) [] = refl
  take-append-drop (suc n) (x ∷ xs) = ap (◌∷◌ x) (take-append-drop n xs)

  -- A cut that fits in the first list does not look at the second.
  pub take-append : (n : ℕ) (xs ys : List A) → n ≤ length xs → take n (xs ++ ys) ≡ take n xs
  take-append zero xs ys h = refl
  take-append (suc n) [] ys h = absurd (omega arith)
  take-append (suc n) (x ∷ xs) ys h = ap (◌∷◌ x) (take-append n xs ys (omega arith))

  pub drop-append : (n : ℕ) (xs ys : List A) → n ≤ length xs → drop n (xs ++ ys) ≡ drop n xs ++ ys
  drop-append zero xs ys h = refl
  drop-append (suc n) [] ys h = absurd (omega arith)
  drop-append (suc n) (x ∷ xs) ys h = drop-append n xs ys (omega arith)

  module _ {κ} (P : A → Type κ) where
    pub All-append : (xs ys : List A) → All P xs → All P ys → All P (xs ++ ys)
    All-append [] ys h k = k
    All-append (x ∷ xs) ys h k = (h.0, All-append xs ys h.1 k)

    pub All-split : (xs ys : List A) → All P (xs ++ ys) → All P xs × All P ys
    All-split [] ys h = (tt, h)
    All-split (x ∷ xs) ys h = let (l, r) = All-split xs ys h.1 in ((h.0, l), r)

    pub All-zip {ν} : (Q : A → Type ν) (xs : List A) → All P xs → All Q xs → All (λ x. P x × Q x) xs
    All-zip Q [] h k = tt
    All-zip Q (x ∷ xs) h k = ((h.0, k.0), All-zip Q xs h.1 k.1)

    pub All-take : (n : ℕ) (xs : List A) → All P xs → All P (take n xs)
    All-take zero xs h = tt
    All-take (suc n) [] h = tt
    All-take (suc n) (x ∷ xs) h = (h.0, All-take n xs h.1)

    pub All-map {ν} : (Q : A → Type ν) → ((x : A) → P x → Q x) → (xs : List A) → All P xs → All Q xs
    All-map Q f [] h = tt
    All-map Q f (x ∷ xs) h = (f x h.0, All-map Q f xs h.1)

    pub All-select : (p : A → Bool) (xs : List A) → All P xs → All P (select p xs)
    All-select p [] h = tt
    All-select p (x ∷ xs) h = elim (Bool-cases (p x)) [
      | inl keep ↦ rw keep (h.0, All-select p xs h.1)
      | inr skip ↦ rw skip (All-select p xs h.1)
    ]

    -- A test that is true of every member drops nothing.
    pub select_all :
        (p : A → Bool) → ((x : A) → P x → p x ≡ true) → (xs : List A) → All P xs → select p xs ≡ xs
    select_all p f [] h = refl
    select_all p f (x ∷ xs) h = rw (f x h.0) (ap (◌∷◌ x) (select_all p f xs h.1))

    pub select_none :
        (p : A → Bool) → ((x : A) → P x → p x ≡ false) → (xs : List A) → All P xs → select p xs ≡ []
    select_none p f [] h = refl
    select_none p f (x ∷ xs) h = rw (f x h.0) (select_none p f xs h.1)

    -- Two tests that agree on the members select the same.
    pub select_agree :
        (p q : A → Bool)
        → ((x : A) → P x → p x ≡ q x)
        → (xs : List A) → All P xs
        → select p xs ≡ select q xs
    select_agree p q f [] h = refl
    select_agree p q f (x ∷ xs) h = rw (f x h.0, select_agree p q f xs h.1)

  pub All_of {κ} : (P : A → Type κ) → ((x : A) → P x) → (xs : List A) → All P xs
  All_of P f [] = tt
  All_of P f (x ∷ xs) = (f x, All_of P f xs)

  pub select_comm : (p q : A → Bool) (xs : List A) → select p (select q xs) ≡ select q (select p xs)
  select_comm p q [] = refl
  select_comm p q (x ∷ xs) = ground (arith, select_comm p q xs)

  pub select-append :
      (p : A → Bool) (xs ys : List A) → select p (xs ++ ys) ≡ select p xs ++ select p ys
  select-append p [] ys = refl
  select-append p (x ∷ xs) ys = ground (arith, select-append p xs ys)

  pub length-select-le : (p : A → Bool) (xs : List A) → length (select p xs) ≤ length xs
  length-select-le p [] = omega arith
  length-select-le p (x ∷ xs) = ground (arith, length-select-le p xs)

  pub select-true : (p : A → Bool) → ((x : A) → p x ≡ true) → (xs : List A) → select p xs ≡ xs
  select-true p f [] = refl
  select-true p f (x ∷ xs) = rw (f x) (ap (◌∷◌ x) (select-true p f xs))

  -- Two selections in a row are one, by both tests.
  pub select-select :
      (p q r : A → Bool)
      → ((x : A) → r x ≡ q x && p x)
      → (xs : List A) → select p (select q xs) ≡ select r xs
  select-select p q r f [] = refl
  select-select p q r f (x ∷ xs) = ground (arith, f x, select-select p q r f xs)

module _ {ℓ} {A : Type ℓ} (P : A → Type 0) where
  pub Any-append : (xs ys : List A) → Any P xs ⊎ Any P ys → Any P (xs ++ ys)
  Any-append [] ys (inr h) = h
  Any-append [] ys (inl h) = elim h [ ]
  Any-append (x ∷ xs) ys (inl (inl h)) = inl h
  Any-append (x ∷ xs) ys (inl (inr h)) = inr (Any-append xs ys (inl h))
  Any-append (x ∷ xs) ys (inr h) = inr (Any-append xs ys (inr h))

  -- The two parts of a list may change places.
  pub Any-flip : (xs ys : List A) → Any P (xs ++ ys) → Any P (ys ++ xs)
  Any-flip [] ys h = Any-append ys [] (inl h)
  Any-flip (x ∷ xs) ys (inl h) = Any-append ys (x ∷ xs) (inr (inl h))
  Any-flip (x ∷ xs) ys (inr h) = insert_middle ys xs x (Any-flip xs ys h)
    where
      insert_middle : (vs bs : List A) (c : A) → Any P (vs ++ bs) → Any P (vs ++ c ∷ bs)
      insert_middle [] bs c k = inr k
      insert_middle (a ∷ vs) bs c (inl k) = inl k
      insert_middle (a ∷ vs) bs c (inr k) = inr (insert_middle vs bs c k)

module _ {ℓ κ} {A : Type ℓ} {B : Type κ} where
  pub length-map : (f : A → B) (xs : List A) → length (map f xs) ≡ length xs
  length-map f [] = refl
  length-map f (x ∷ xs) = ap suc (length-map f xs)

module _ {ℓ} {A : Type ℓ} where
  pub take-append-length : (xs ys : List A) → take (length xs) (xs ++ ys) ≡ xs
  take-append-length [] ys = refl
  take-append-length (x ∷ xs) ys = ap (◌∷◌ x) (take-append-length xs ys)

  pub drop-append-length : (xs ys : List A) → drop (length xs) (xs ++ ys) ≡ ys
  drop-append-length [] ys = refl
  drop-append-length (x ∷ xs) ys = drop-append-length xs ys

  pub List-cases : (xs : List A) → (xs ≡ []) ⊎ ((y : A) × (ys : List A) × (xs ≡ y ∷ ys))
  List-cases [] = inl refl
  List-cases (y ∷ ys) = inr (y, ys, refl)
