-- ===== src/Base/StdSet.antt =====
-- `std::set<std::string>`: the list of its members in the order of iteration.
use load_tester_project.Base.Lists.{length, All, Any, AllApart, All-map}
use load_tester_project.Base.Str.{Bytes, str_eq, str_eq_iff, str_eq_refl, str_lt}
use load_tester_project.Base.Tests.{if◌then◌else◌, Bool-cases}
use Prim.Native.Nat.{ℕ, suc, ◌+◌}
use mathlib.Core.Bool.{Bool, true, false, ◌||◌}
use mathlib.Core.List.{List, [], ◌∷◌, ◌++◌, append-nil}
use mathlib.Core.Logic.{inl, inr, ◌≢◌}
use mathlib.Core.Path.{◌≡◌, refl, sym, ap, ◌∙◌}
use native.Mathlib.Omega.{arith}

-- `s.find(x) != s.end()`
unfoldable pub contains : Bytes → List Bytes → Bool
contains x [] = false
contains x (y ∷ s) = str_eq x y || contains x s

-- A new member, before the first that is greater.
place : Bytes → List Bytes → List Bytes
place x [] = x ∷ []
place x (y ∷ s) = let later = y ∷ place x s in if str_lt x y then x ∷ y ∷ s else later

-- `s.insert(x)`
unfoldable pub insert : Bytes → List Bytes → List Bytes
unfolding place str_lt
insert x s = if contains x s then s else place x s

unfoldable pub insert_all : List Bytes → List Bytes → List Bytes
insert_all s [] = s
insert_all s (x ∷ xs) = insert_all (insert x s) xs

-- How many members a row of insertions adds.
unfoldable pub count_new : List Bytes → List Bytes → ℕ
count_new s [] = 0
count_new s (x ∷ xs) =
    let old = count_new s xs in
    let new = suc (count_new (insert x s) xs) in if contains x s then old else new

contains-place :
    (z x : Bytes) (s : List Bytes) → contains z (place x s) ≡ str_eq z x || contains z s
unfolding contains place
contains-place z x [] = refl
contains-place z x (y ∷ s) = ground (arith, contains-place z x s)

contains_of_eq : (z x : Bytes) (s : List Bytes) → str_eq z x ≡ true → contains x s ≡ contains z s
contains_of_eq z x s h = ap (λ w. contains w s) (sym ((str_eq_iff z x).0 h))

pub contains-insert :
    (z x : Bytes) (s : List Bytes) → contains z (insert x s) ≡ str_eq z x || contains z s
unfolding insert
contains-insert z x s = ground (arith, contains-place z x s, contains_of_eq z x s)

-- An insertion keeps the members.
pub contains-insert_all_old :
    (z : Bytes) (s xs : List Bytes) → contains z s ≡ true → contains z (insert_all s xs) ≡ true
unfolding insert_all
contains-insert_all_old z s [] h = h
contains-insert_all_old z s (x ∷ xs) h =
    contains-insert_all_old z (insert x s) xs (ground (arith, contains-insert z x s, h))

pub contains-insert_all_new :
    (z : Bytes) (s xs : List Bytes) → contains z xs ≡ true → contains z (insert_all s xs) ≡ true
unfolding insert_all contains
contains-insert_all_new z s [] h = absurd (cc h)
contains-insert_all_new z s (x ∷ xs) h = elim (Bool-cases (str_eq z x)) [
  | inl same ↦
      contains-insert_all_old z (insert x s) xs (ground (arith, same, contains-insert z x s))
  | inr other ↦ contains-insert_all_new z (insert x s) xs (ground (arith, other, h))
]

pub contains-Any : (z : Bytes) (s : List Bytes) → contains z s ≡ true → Any (λ y. y ≡ z) s
unfolding contains
contains-Any z [] h = absurd (cc h)
contains-Any z (y ∷ s) h = elim (Bool-cases (str_eq z y)) [
  | inl same ↦ inl (sym ((str_eq_iff z y).0 same))
  | inr other ↦ inr (contains-Any z s (ground (arith, other, h)))
]

place-All : (P : Bytes → Type 0) (x : Bytes) (s : List Bytes) → P x → All P s → All P (place x s)
unfolding place
place-All P x [] p a = (p, tt)
place-All P x (y ∷ s) p a = elim (Bool-cases (str_lt x y)) [
  | inl less ↦ rw less (p, a)
  | inr more ↦ rw more (a.0, place-All P x s p a.1)
]

insert-All : (P : Bytes → Type 0) (x : Bytes) (s : List Bytes) → P x → All P s → All P (insert x s)
unfolding insert
insert-All P x s p a = elim (Bool-cases (contains x s)) [
  | inl old ↦ rw old a
  | inr new ↦ rw new (place-All P x s p a)
]

not_in : (x : Bytes) (s : List Bytes) → contains x s ≡ false → All (λ y. x ≢ y) s
unfolding contains
not_in x [] h = tt
not_in x (y ∷ s) h =
    (λ e. absurd (ground (arith, h, str_eq_iff x y, e)), not_in x s (ground (arith, h)))

place-AllApart :
    (x : Bytes) (s : List Bytes) → contains x s ≡ false → AllApart s → AllApart (place x s)
unfolding place contains
place-AllApart x [] h a = (tt, tt)
place-AllApart x (y ∷ s) h a = elim (Bool-cases (str_lt x y)) [
  | inl less ↦ rw less (not_in x (y ∷ s) h, a)
  | inr more ↦ rw more (
    place-All (λ z. y ≢ z) x s (λ e. absurd (ground (arith, h, str_eq_iff x y, e))) a.0,
    place-AllApart x s (ground (arith, h)) a.1,
  )
]

-- The members of a set come once each.
pub insert_all-AllApart : (s xs : List Bytes) → AllApart s → AllApart (insert_all s xs)
unfolding insert_all insert
insert_all-AllApart s [] a = a
insert_all-AllApart s (x ∷ xs) a = elim (Bool-cases (contains x s)) [
  | inl old ↦ rw old (insert_all-AllApart s xs a)
  | inr new ↦ rw new (insert_all-AllApart (place x s) xs (place-AllApart x s new a))
]

insert_all_keeps :
    (P : Bytes → Type 0) (s xs : List Bytes) → All P s → All P xs → All P (insert_all s xs)
unfolding insert_all
insert_all_keeps P s [] a b = a
insert_all_keeps P s (x ∷ xs) a b = insert_all_keeps P (insert x s) xs (insert-All P x s b.0 a) b.1

all_contained : (s : List Bytes) → All (λ x. contains x s ≡ true) s
unfolding contains
all_contained [] = tt
all_contained (y ∷ s) =
    (ground (arith, str_eq_refl y), All-map _ _ (λ x h. ground (arith, h)) s (all_contained s))

-- The members of a new set are among what was inserted.
pub insert_all-All : (xs : List Bytes) → All (λ x. contains x xs ≡ true) (insert_all [] xs)
insert_all-All xs = insert_all_keeps (λ x. contains x xs ≡ true) [] xs tt (all_contained xs)

length-place : (x : Bytes) (s : List Bytes) → length (place x s) ≡ suc (length s)
unfolding place
length-place x [] = refl
length-place x (y ∷ s) = ground (arith, length-place x s)

pub length-insert :
    (x : Bytes) (s : List Bytes)
    → length (insert x s) ≡ (if contains x s then length s else suc (length s))
unfolding insert
length-insert x s = ground (arith, length-place x s)

pub insert_old : (x : Bytes) (s : List Bytes) → contains x s ≡ true → insert x s ≡ s
unfolding insert
insert_old x s h = rw h

pub length-insert_all : (s xs : List Bytes) → length (insert_all s xs) ≡ length s + count_new s xs
unfolding insert_all count_new
length-insert_all s [] = omega arith
length-insert_all s (x ∷ xs) = elim (Bool-cases (contains x s)) [
  | inl old ↦ rw (old, insert_old x s old) (length-insert_all s xs)
  | inr new ↦ ground (arith, new, length-insert x s, length-insert_all (insert x s) xs)
]

-- Only membership matters to the count.
pub count_new_agree :
    (s t : List Bytes) (xs : List Bytes)
    → ((z : Bytes) → contains z s ≡ contains z t)
    → count_new s xs ≡ count_new t xs
unfolding count_new
count_new_agree s t [] h = refl
count_new_agree s t (x ∷ xs) h = ground (
  arith,
  h x,
  count_new_agree s t xs h,
  count_new_agree (insert x s) (insert x t) xs
      (λ z. ground (arith, contains-insert z x s, contains-insert z x t, h z)),
)

count_new-swap :
    (s : List Bytes) (x y : Bytes) (xs : List Bytes)
    → count_new s (x ∷ y ∷ xs) ≡ count_new s (y ∷ x ∷ xs)
unfolding count_new
count_new-swap s x y xs = ground (
  arith,
  contains-insert y x s,
  contains-insert x y s,
  str_eq_iff x y,
  str_eq_iff y x,
  count_new_agree (insert y (insert x s)) (insert x (insert y s)) xs (λ z. ground (
    arith,
    contains-insert z y (insert x s),
    contains-insert z x s,
    contains-insert z x (insert y s),
    contains-insert z y s,
  )),
)

count_new-middle :
    (s : List Bytes) (ys : List Bytes) (x : Bytes) (zs : List Bytes)
    → count_new s (ys ++ x ∷ zs) ≡ count_new s (x ∷ (ys ++ zs))
unfolding count_new
count_new-middle s [] x zs = refl
count_new-middle s (y ∷ ys) x zs =
    ground (arith, count_new-middle s ys x zs, count_new-middle (insert y s) ys x zs)
    ∙ count_new-swap s y x (ys ++ zs)

-- The count does not depend on where a cycle is entered.
pub count_new-rotate : (s xs ys : List Bytes) → count_new s (xs ++ ys) ≡ count_new s (ys ++ xs)
unfolding count_new
count_new-rotate s [] ys = ap (count_new s) (sym (append-nil ys))
count_new-rotate s (x ∷ xs) ys =
    ground (arith, count_new-rotate s xs ys, count_new-rotate (insert x s) xs ys)
    ∙ sym (count_new-middle s ys x xs)
