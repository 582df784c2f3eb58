-- ===== src/RecoveryManager/Keys.antt =====
-- The list of keys that `handle_all_keys` of kvserver.cpp writes is what the recovery manager reads.
use load_tester_project.Base.{List, [], ◌∷◌, ◌++◌, Bytes, ◌≡◌, ◌≢◌, refl, ap, ◌∙◌, arith, All}
use load_tester_project.Database.{Database}
use load_tester_project.Base.Streams.{c_str, all_lines}
use load_tester_project.KvServer.{join_lines}
use load_tester_project.RecoveryManager.{non_empty, key_lines}

-- A key that can stand on a line of its own.
abbrev pub IsLine : Bytes → Type 0
IsLine key = (key ≢ []) × (c_str key ≡ key) × All (λ c. c ≢ b'\n') key

all_lines-append :
    (line rest : Bytes)
    → All (λ c. c ≢ b'\n') line
    → all_lines ((line ++ b'\n' ∷ []) ++ rest) ≡ line ∷ all_lines rest
unfolding all_lines
all_lines-append [] rest a = refl
all_lines-append (c ∷ line) rest a = ground (arith, all_lines-append line rest a.1, a.0)

non_empty-cons :
    (line : Bytes) (lines : List Bytes)
    → line ≢ []
    → non_empty (line ∷ lines) ≡ line ∷ non_empty lines
unfolding non_empty
non_empty-cons [] lines h = absurd (h refl)
non_empty-cons (c ∷ line) lines h = refl

-- The keys on the lines that `handle_all_keys` writes are read back by the recovery manager, in
-- order, if none is empty or holds a line end or a NUL.
pub key_lines-join_lines :
    (d : Database) (rows : List Bytes) → All IsLine rows → key_lines (join_lines d rows) ≡ rows
unfolding key_lines join_lines
key_lines-join_lines d [] a = refl
key_lines-join_lines d (row ∷ rows) a = rw (a.0.1) (
    ap non_empty (all_lines-append row (join_lines d rows) a.0.2)
    ∙ non_empty-cons row _ a.0.0
    ∙ ap (λ ls. row ∷ ls) (key_lines-join_lines d rows a.1))
