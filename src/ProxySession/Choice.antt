-- ===== src/ProxySession/Choice.antt =====
-- Which of the responses to a write the client is sent.
use load_tester_project.Base.{
  ℕ, Bool, true, false, ◌||◌, List, [], ◌∷◌, Bytes, ◌≡◌, inl, inr, refl, sym, ◌∙◌, arith,
  if◌then◌else◌, Bool-cases,
}
use load_tester_project.Base.Decimal.{pos, int_eq}
use load_tester_project.Backend.{Backend}
use load_tester_project.Router.{Router, mark_backend_down}
use load_tester_project.Router.Reach.{Reach, here, next, goes_down, Reach-trans}
use load_tester_project.HttpResponse.{HttpResponse}
use load_tester_project.ProxySession.{
  Answer, unreachable, no_answer, answered, Written, nothing_written, note, replaces,
  reply_to_write, unavailable,
}

unfoldable pub responses : List Answer → List HttpResponse
responses [] = []
responses (answered r ∷ answers) = r ∷ responses answers
responses (unreachable ∷ answers) = responses answers
responses (no_answer ∷ answers) = responses answers

-- The backends whose answer is that they cannot be reached.
unfoldable pub unreached : List Backend → List Answer → List Backend
unreached [] answers = []
unreached (b ∷ bs) [] = []
unreached (b ∷ bs) (unreachable ∷ answers) = b ∷ unreached bs answers
unreached (b ∷ bs) (no_answer ∷ answers) = unreached bs answers
unreached (b ∷ bs) (answered r ∷ answers) = unreached bs answers

-- Mark one backend after the other DOWN.
unfoldable pub mark_all : (Bytes → ℕ) → List Backend → Router → Router
mark_all hasher [] r = r
mark_all hasher (b ∷ bs) r = mark_all hasher bs (mark_backend_down hasher b.port r)

pub mark_all-Reach :
    (hasher : Bytes → ℕ) (bs : List Backend) (r : Router) → Reach hasher r (mark_all hasher bs r)
unfolding mark_all
mark_all-Reach hasher [] r = here
mark_all-Reach hasher (b ∷ bs) r =
    Reach-trans (next here (goes_down b.port r))
      (mark_all-Reach hasher bs (mark_backend_down hasher b.port r))

is_success : HttpResponse → Bool
is_success r = int_eq r.status_code (pos 200) || int_eq r.status_code (pos 201)

any_success : List HttpResponse → Bool
unfolding is_success
any_success [] = false
any_success (r ∷ rs) = is_success r || any_success rs

-- The responses from the last one with status 200 or 201 on, or all if there is none.
since_success : List HttpResponse → List HttpResponse
unfolding any_success
since_success [] = []
since_success (r ∷ rs) = if any_success rs then since_success rs else r ∷ rs

or_else : Bytes → Bytes → Bytes
or_else [] other = other
or_else (c ∷ s) other = c ∷ s

-- The first text that is not empty.
first_text : List HttpResponse → Bytes
unfolding or_else
first_text [] = []
first_text (r ∷ rs) = or_else r.raw_response (first_text rs)

-- What the client is sent for the responses to a write: the last success, else the first response.
unfoldable pub write_reply : List HttpResponse → Bytes
unfolding first_text since_success
write_reply [] = unavailable
write_reply (r ∷ rs) = first_text (since_success (r ∷ rs))

unfoldable pub noted : Written → List HttpResponse → Written
noted w [] = w
noted w (r ∷ rs) = noted (note r w) rs

note-primary :
    (r : HttpResponse) (w : Written)
    → (note r w).primary
      ≡ (if is_success r then r.raw_response else or_else w.primary r.raw_response)
unfolding note is_success replaces or_else
note-primary r w = kept w.primary
  where
    kept :
        (p : Bytes)
        → (if replaces r p then r.raw_response else p) ≡ (
            if int_eq r.status_code (pos 200) || int_eq r.status_code (pos 201)
            then r.raw_response
            else or_else p r.raw_response)
    kept [] = ground arith
    kept (c ∷ p) = refl

or_else_assoc : (a b c : Bytes) → or_else (or_else a b) c ≡ or_else a (or_else b c)
unfolding or_else
or_else_assoc [] b c = refl
or_else_assoc (x ∷ a) b c = refl

or_else-nil : (a : Bytes) → or_else a [] ≡ a
unfolding or_else
or_else-nil [] = refl
or_else-nil (x ∷ a) = refl

noted-primary :
    (w : Written) (rs : List HttpResponse)
    → (noted w rs).primary ≡ (
        if any_success rs then first_text (since_success rs) else or_else w.primary (first_text rs))
unfolding noted any_success since_success first_text
noted-primary w [] = sym (or_else-nil w.primary)
noted-primary w (r ∷ rs) =
    let now = note-primary r w in
    let later = noted-primary (note r w) rs in
    elim (Bool-cases (any_success rs)) [
      | inl some_success ↦ elim (Bool-cases (is_success r)) [
        | inl good ↦ ground (arith, later, some_success, good)
        | inr bad ↦ ground (arith, later, some_success, bad)
      ]
      | inr no_success ↦ elim (Bool-cases (is_success r)) [
        | inl good ↦ ground (arith, later, now, no_success, good)
        | inr bad ↦ ground (
          arith,
          later,
          now,
          no_success,
          bad,
          or_else_assoc w.primary r.raw_response (first_text rs),
        )
      ]
    ]

noted-success :
    (w : Written) (rs : List HttpResponse) → w.success ≡ true → (noted w rs).success ≡ true
unfolding noted note
noted-success w [] e = e
noted-success w (r ∷ rs) e = noted-success (note r w) rs refl

whole :
    (rs : List HttpResponse)
    → (if any_success rs then first_text (since_success rs) else or_else [] (first_text rs))
      ≡ first_text (since_success rs)
unfolding any_success since_success or_else
whole [] = refl
whole (r ∷ rs) = elim (Bool-cases (any_success rs)) [
  | inl later ↦ elim (Bool-cases (is_success r)) [
    | inl good ↦ ground (arith, later, good)
    | inr bad ↦ ground (arith, later, bad)
  ]
  | inr none_later ↦ elim (Bool-cases (is_success r)) [
    | inl good ↦ ground (arith, none_later, good)
    | inr bad ↦ ground (arith, none_later, bad)
  ]
]

pub reply_to_write-noted :
    (rs : List HttpResponse) → reply_to_write (noted nothing_written rs) ≡ write_reply rs
unfolding reply_to_write write_reply
reply_to_write-noted [] = unfold noted in refl
reply_to_write-noted (r ∷ rs) =
    let sent : (noted nothing_written (r ∷ rs)).success ≡ true =
      unfold noted note in noted-success (note r nothing_written) rs refl in
    rw sent (noted-primary nothing_written (r ∷ rs) ∙ whole (r ∷ rs))
