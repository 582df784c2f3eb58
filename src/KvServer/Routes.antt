-- ===== src/KvServer/Routes.antt =====
-- The routes that `main` of kvserver.cpp registers. `httplib` takes the first pattern, in the
-- order of registration, that matches the whole path.
use load_tester_project.Base.{
  ◌≤◌, Any, ◌⊎◌, inl, inr, Bool-cases, ℕ, Bool, true, false, ◌&&◌, ◌||◌, [], ◌∷◌, ◌++◌, Option,
  none, some, Bytes, codes, ◌≡◌, ◌≢◌, refl, ap, arith, ◌==◌, leb, if◌then◌else◌, str_eq, str_eq_iff,
  starts_with, drop, length,
}

pub data Method : Type 0 where
  get post put delete : Method

pub data Handler : Type 0 where
  create update remove all_keys read health sync : Handler

-- `\w`
unfoldable pub is_word : ℕ → Bool
is_word c =
    (leb b'a' c && leb c b'z')
    || ((leb b'A' c && leb c b'Z') || ((leb b'0' c && leb c b'9') || c == b'_'))

unfoldable pub all_word : Bytes → Bool
unfolding is_word
all_word [] = true
all_word (c ∷ s) = is_word c && all_word s

-- `(\w+)`
unfoldable pub word : Bytes → Option Bytes
unfolding all_word
word [] = none
word (c ∷ s) = if all_word (c ∷ s) then some (c ∷ s) else none

-- A pattern `prefix(\w+)`: the group.
unfoldable pub match_word : Bytes → Bytes → Option Bytes
unfolding word starts_with
match_word prefix path = if starts_with prefix path then word (drop (length prefix) path) else none

abbrev pub route : Handler → Bytes → Handler × Bytes
route h matched = (h, matched)

on_word : Handler → Option Bytes → Option (Handler × Bytes)
on_word h none = none
on_word h (some key) = some (route h key)

-- The handler of a request, and `matches[1]`.
unfoldable pub dispatch : Method → Bytes → Option (Handler × Bytes)
unfolding match_word on_word
dispatch post path =
    if str_eq path (codes "/kvstore/create")
    then some (route create [])
    else on_word sync (match_word (codes "/kvstore/sync/") path)
dispatch put path = on_word update (match_word (codes "/kvstore/") path)
dispatch delete path = on_word remove (match_word (codes "/kvstore/") path)
dispatch get path =
    if str_eq path (codes "/kvstore/allkeys")
    then some (route all_keys [])
    else elim (match_word (codes "/kvstore/") path) [
      | some key ↦ some (route read key)
      | none ↦ if str_eq path (codes "/health") then some (route health []) else none
    ]

matched_key : (key : Bytes) → match_word (codes "/kvstore/") (codes "/kvstore/" ++ key) ≡ word key
unfolding match_word
matched_key key = refl

not_health : (key : Bytes) → str_eq (codes "/kvstore/" ++ key) (codes "/health") ≡ false
unfolding str_eq
not_health key = refl

-- The comparison with the route of all keys is one of the key.
allkeys_path :
    (key : Bytes)
    → str_eq (codes "/kvstore/" ++ key) (codes "/kvstore/allkeys") ≡ str_eq key (codes "allkeys")
unfolding str_eq
allkeys_path key = refl

not_allkeys : (key : Bytes) → key ≢ codes "allkeys" → str_eq key (codes "allkeys") ≡ false
not_allkeys key h = ground (arith, str_eq_iff key (codes "allkeys"))

-- A key of word bytes other than `allkeys` is read, updated and deleted under its own name.
pub dispatch_key :
    (key : Bytes)
    → word key ≡ some key
    → key ≢ codes "allkeys"
    → (dispatch get (codes "/kvstore/" ++ key) ≡ some (read, key))
      × (dispatch put (codes "/kvstore/" ++ key) ≡ some (update, key))
      × (dispatch delete (codes "/kvstore/" ++ key) ≡ some (remove, key))
unfolding dispatch
dispatch_key key w other = (
  ground (arith, allkeys_path key, not_allkeys key other, matched_key key, w),
  ground (arith, matched_key key, w),
  ground (arith, matched_key key, w),
)

word_allkeys : word (codes "allkeys") ≡ some (codes "allkeys")
unfolding word
word_allkeys = refl

-- A letter, a digit or an underscore.
abbrev pub IsWordByte : ℕ → Type 0
IsWordByte c =
    ((b'a' ≤ c) × (c ≤ b'z'))
    ⊎ (((b'A' ≤ c) × (c ≤ b'Z')) ⊎ (((b'0' ≤ c) × (c ≤ b'9')) ⊎ (c ≡ b'_')))

not_word : (c : ℕ) → ¬ IsWordByte c → is_word c ≡ false
unfolding is_word
not_word c h = elim (Bool-cases (is_word c)) [
  | inr other ↦ other
  | inl letter ↦ absurd (h (ground (arith, letter)))
]

not_all_word : (s : Bytes) → Any (λ c. ¬ IsWordByte c) s → all_word s ≡ false
unfolding all_word
not_all_word [] a = absurd a
not_all_word (c ∷ s) (inl here) = rw (not_word c here) refl
not_all_word (c ∷ s) (inr later) = ground (arith, not_all_word s later)

no_word : (key : Bytes) → (key ≡ []) ⊎ Any (λ c. ¬ IsWordByte c) key → word key ≡ none
unfolding word
no_word [] h = refl
no_word (c ∷ s) (inl e) = absurd (cc e)
no_word (c ∷ s) (inr bad) = rw (not_all_word (c ∷ s) bad) refl

-- A key that is empty, or has a byte that is no letter, digit or underscore, is not read,
-- updated or deleted by any request under its name.
pub dispatch_unreachable :
    (key : Bytes)
    → (key ≡ []) ⊎ Any (λ c. ¬ IsWordByte c) key
    → (dispatch get (codes "/kvstore/" ++ key) ≡ none)
      × (dispatch put (codes "/kvstore/" ++ key) ≡ none)
      × (dispatch delete (codes "/kvstore/" ++ key) ≡ none)
unfolding dispatch
dispatch_unreachable key bad =
    let w = no_word key bad in
    let other : key ≢ codes "allkeys" = λ e. ground (arith, w, ap word e, word_allkeys) in
    (
      ground (arith, allkeys_path key, not_allkeys key other, matched_key key, w, not_health key),
      ground (arith, matched_key key, w),
      ground (arith, matched_key key, w),
    )
