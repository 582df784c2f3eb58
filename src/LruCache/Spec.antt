-- ===== src/LruCache/Spec.antt =====
-- What the cache promises, on the list of its pairs, most recently used first.
use load_tester_project.Base.{
  ℕ, not, List, [], ◌∷◌, Option, none, some, Bytes, leb, if◌then◌else◌, length, select, str_eq,
}
use load_tester_project.Base.Decimal.{ℤ, pos, negsuc}

abbrev pub Pairs : Type 0
Pairs = List (Bytes × Bytes)

unfoldable pub lookup : Bytes → Pairs → Option Bytes
lookup k [] = none
lookup k ((j, v) ∷ l) = if str_eq k j then some v else lookup k l

unfoldable pub remove : Bytes → Pairs → Pairs
remove k l = select (λ e. not (str_eq k e.0)) l

-- All but the least recently used.
unfoldable pub but_last : Pairs → Pairs
but_last [] = []
but_last (e ∷ []) = []
but_last (e ∷ f ∷ l) = e ∷ but_last (f ∷ l)

-- A hit returns the value and becomes the most recent.
unfoldable pub read : Bytes → Pairs → Bytes × Pairs
unfolding lookup remove
read k l = elim (lookup k l) [ none ↦ ([], l) | some v ↦ (v, (k, v) ∷ remove k l) ]

-- A new key goes in front, and a full cache first drops the least recently used.
unfoldable pub create : ℕ → Bytes → Bytes → Pairs → ℤ × Pairs
unfolding lookup but_last
create capacity k v l = elim (lookup k l) [
  | some _ ↦ (negsuc 0, l)
  | none ↦ (pos 0, (k, v) ∷ (if leb capacity (length l) then but_last l else l))
]

unfoldable pub update : Bytes → Bytes → Pairs → ℤ × Pairs
unfolding lookup remove
update k v l = elim (lookup k l) [ some _ ↦ (pos 0, (k, v) ∷ remove k l) | none ↦ (negsuc 0, l) ]

unfoldable pub delete : Bytes → Pairs → ℤ × Pairs
unfolding lookup remove
delete k l = elim (lookup k l) [ some _ ↦ (pos 0, remove k l) | none ↦ (negsuc 0, l) ]
