-- ===== src/KvClient/Commands.antt =====
-- What the user types, and what the server makes of the request it leads to.
use load_tester_project.Base.{
  All-map, ℕ, true, false, [], ◌∷◌, ◌++◌, some, Bytes, codes, ◌≡◌, ◌≢◌, inl, inr, refl, sym, ap,
  ◌∙◌, arith, length, drop, All, Bool-cases, str_eq, drop-append-length, append-nil,
}
use load_tester_project.Base.Streams.{
  getline-append, getline_all, skip_spaces, take_word, getline, is_space, c_str,
}
use load_tester_project.Clients.{get, delete, post, put}
use load_tester_project.KvServer.{split_body}
use load_tester_project.KvServer.Routes.{
  Handler, read, update, remove, create, dispatch, word, all_word, is_word, dispatch_key,
}
use load_tester_project.KvServer.Routes as Routes
use load_tester_project.KvClient.{Command, parse_line, requests, action_of, no_text, without_space}

-- A key of word bytes, with one at least.
abbrev pub IsKey : Bytes → Type 0
IsKey key = (key ≢ []) × All (λ c. is_word c ≡ true) key

IsKey-word : (key : Bytes) → word key ≡ some key → IsKey key
unfolding word
IsKey-word [] e = absurd (cc e)
IsKey-word (c ∷ s) e = elim (Bool-cases (all_word (c ∷ s))) [
  | inl whole ↦ ((λ h. cc h), each (c ∷ s) whole)
  | inr broken ↦ absurd (ground (arith, broken, e))
]
  where
    each : (k : Bytes) → all_word k ≡ true → All (λ x. is_word x ≡ true) k
    each [] h = tt
    each (x ∷ k) h = elim (Bool-cases (is_word x)) [
      | inl good ↦ (good, each k (ground (arith, good, h)))
      | inr bad ↦ absurd (ground (arith, bad, h))
    ]

is_word_no_space : (c : ℕ) → is_word c ≡ true → (is_space c ≡ false) × (c ≢ 0) × (c ≢ b' ')
unfolding is_word is_space
is_word_no_space c h = ground (arith, h)

take_word-append :
    (key rest : Bytes) → All (λ c. is_word c ≡ true) key → take_word (key ++ b' ' ∷ rest) ≡ key
unfolding take_word
take_word-append [] rest a = refl
take_word-append (c ∷ key) rest a =
    let ok = is_word_no_space c a.0 in ground (arith, ok.0, take_word-append key rest a.1)

take_word_all : (key : Bytes) → All (λ c. is_word c ≡ true) key → take_word key ≡ key
unfolding take_word
take_word_all [] a = refl
take_word_all (c ∷ key) a =
    let ok = is_word_no_space c a.0 in ground (arith, ok.0, take_word_all key a.1)

skip_spaces_key : (key rest : Bytes) → IsKey key → skip_spaces (key ++ rest) ≡ key ++ rest
unfolding skip_spaces
skip_spaces_key [] rest (ne, a) = absurd (ne refl)
skip_spaces_key (c ∷ key) rest (ne, a) = let ok = is_word_no_space c a.0 in ground (arith, ok.0)

getline_word :
    (key rest : Bytes)
    → All (λ c. is_word c ≡ true) key
    → getline b' ' (key ++ b' ' ∷ rest) ≡ (key, rest)
getline_word key rest a =
    getline-append b' ' key rest (All-map _ _ (λ c h. (is_word_no_space c h).2) key a)

c_str_key : (key : Bytes) → All (λ c. is_word c ≡ true) key → c_str key ≡ key
unfolding c_str
c_str_key [] a = refl
c_str_key (c ∷ key) a = let ok = is_word_no_space c a.0 in ground (arith, ok.1, c_str_key key a.1)

c_str_path :
    (key : Bytes)
    → All (λ c. is_word c ≡ true) key
    → c_str (codes "/kvstore/" ++ key) ≡ codes "/kvstore/" ++ key
unfolding c_str
c_str_path key a = ap (λ k. codes "/kvstore/" ++ k) (c_str_key key a)

-- A command with a key and a value.
abbrev typed : Bytes → Bytes → Bytes → Command
typed cmd key value = record { cmd = cmd; key = key; value = value }

without_space_lem : (value : Bytes) → without_space (b' ' ∷ value) ≡ value
unfolding without_space
without_space_lem value = refl

module _ (key value : Bytes) (k : IsKey key) (v : All (λ c. c ≢ b'\n') value) where
  value_part : getline b'\n' (drop (length key) (key ++ b' ' ∷ value)) ≡ (b' ' ∷ value, [])
  value_part =
      rw (drop-append-length key (b' ' ∷ value)) (getline_all b'\n' (b' ' ∷ value) ((λ e. cc e), v))

  parse_create :
      parse_line (codes "create " ++ (key ++ b' ' ∷ value)) ≡ typed (codes "create") key value
  unfolding parse_line
  parse_create =
      rw (skip_spaces_key key (b' ' ∷ value) k)
        (rw (take_word-append key value k.1) (rw value_part refl))

  parse_update :
      parse_line (codes "update " ++ (key ++ b' ' ∷ value)) ≡ typed (codes "update") key value
  unfolding parse_line
  parse_update =
      rw (skip_spaces_key key (b' ' ∷ value) k)
        (rw (take_word-append key value k.1) (rw value_part refl))

module _ (key : Bytes) (k : IsKey key) where
  skip_spaces_alone : skip_spaces key ≡ key
  skip_spaces_alone =
      ap skip_spaces (sym (append-nil key)) ∙ skip_spaces_key key [] k ∙ append-nil key

  nothing_left : drop (length key) key ≡ []
  nothing_left = ap (drop (length key)) (sym (append-nil key)) ∙ drop-append-length key []

  parse_read : parse_line (codes "read " ++ key) ≡ typed (codes "read") key []
  unfolding parse_line
  parse_read = rw skip_spaces_alone (rw (take_word_all key k.1) (rw nothing_left refl))

  parse_delete : parse_line (codes "delete " ++ key) ≡ typed (codes "delete") key []
  unfolding parse_line
  parse_delete = rw skip_spaces_alone (rw (take_word_all key k.1) (rw nothing_left refl))

no_text-ne : (s : Bytes) → s ≢ [] → no_text s ≡ false
unfolding no_text
no_text-ne [] h = absurd (h refl)
no_text-ne (c ∷ s) h = refl

module _ (key value : Bytes) (k : IsKey key) (ne : value ≢ []) where
  action_create :
      action_of (typed (codes "create") key value)
      ≡ requests (post (codes "/kvstore/create") (key ++ (codes " " ++ value)))
  unfolding action_of str_eq
  action_create = ground (arith, no_text-ne key k.0, no_text-ne value ne)

  action_update :
      action_of (typed (codes "update") key value) ≡ requests (put (codes "/kvstore/" ++ key) value)
  unfolding action_of str_eq
  action_update = ground (arith, no_text-ne key k.0, no_text-ne value ne, c_str_path key k.1)

  action_read : action_of (typed (codes "read") key []) ≡ requests (get (codes "/kvstore/" ++ key))
  unfolding action_of str_eq
  action_read = ground (arith, no_text-ne key k.0, c_str_path key k.1)

  action_delete :
      action_of (typed (codes "delete") key []) ≡ requests (delete (codes "/kvstore/" ++ key))
  unfolding action_of str_eq
  action_delete = ground (arith, no_text-ne key k.0, c_str_path key k.1)

split_body_lem :
    (key value : Bytes)
    → IsKey key
    → All (λ c. c ≢ b'\n') value
    → split_body (key ++ b' ' ∷ value) ≡ (key, value)
unfolding split_body
split_body_lem key value k v = rw (getline_word key value k.1) (rw (getline_all b'\n' value v) refl)

-- For a key of word bytes, one at least and not `allkeys`, and a value that is not empty and has
-- no line end, what the user types as create, update, read or delete becomes the request whose
-- path the server routes to that operation with that key. The server reads the same key and
-- value from the body of a create, and the body of an update is the value.
pub parse_line-dispatch :
    (key value : Bytes)
    → word key ≡ some key
    → key ≢ codes "allkeys"
    → value ≢ []
    → All (λ c. c ≢ b'\n') value
    → (action_of (parse_line (codes "create " ++ (key ++ b' ' ∷ value)))
        ≡ requests (post (codes "/kvstore/create") (key ++ b' ' ∷ value)))
      × (dispatch Routes.post (codes "/kvstore/create") ≡ some (create, []))
      × (split_body (key ++ b' ' ∷ value) ≡ (key, value))
      × (action_of (parse_line (codes "update " ++ (key ++ b' ' ∷ value)))
          ≡ requests (put (codes "/kvstore/" ++ key) value))
      × (dispatch Routes.put (codes "/kvstore/" ++ key) ≡ some (update, key))
      × (action_of (parse_line (codes "read " ++ key)) ≡ requests (get (codes "/kvstore/" ++ key)))
      × (dispatch Routes.get (codes "/kvstore/" ++ key) ≡ some (read, key))
      × (action_of (parse_line (codes "delete " ++ key))
          ≡ requests (delete (codes "/kvstore/" ++ key)))
      × (dispatch Routes.delete (codes "/kvstore/" ++ key) ≡ some (remove, key))
parse_line-dispatch key value w other ne v =
    let k = IsKey-word key w in
    let d = dispatch_key key w other in
    (
      ap action_of (parse_create key value k v) ∙ action_create key value k ne,
      unfold dispatch in unfold str_eq in refl,
      split_body_lem key value k v,
      ap action_of (parse_update key value k v) ∙ action_update key value k ne,
      d.1,
      ap action_of (parse_read key k) ∙ action_read key value k ne,
      d.0,
      ap action_of (parse_delete key k) ∙ action_delete key value k ne,
      d.2,
    )
