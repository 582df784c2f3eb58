-- ===== src/Base/Streams.antt =====
-- `std::istringstream`: what the source reads from a text.
use load_tester_project.Base.Str.{Bytes}
use load_tester_project.Base.Lists.{All}
use load_tester_project.Base.Tests.{◌==◌, leb, if◌then◌else◌}
use Prim.Native.Nat.{ℕ}
use mathlib.Core.Logic.{◌≢◌}
use mathlib.Core.Path.{◌≡◌, refl}
use native.Mathlib.Omega.{arith}
use mathlib.Core.Bool.{Bool, ◌&&◌, ◌||◌}
use mathlib.Core.List.{◌++◌, List, [], ◌∷◌}

-- A byte in front of the first of the lines.
prepend : ℕ → List Bytes → List Bytes
prepend c [] = (c ∷ []) ∷ []
prepend c (line ∷ lines) = (c ∷ line) ∷ lines

-- The lines that `std::getline` reads until it fails.
unfoldable pub all_lines : Bytes → List Bytes
unfolding prepend
all_lines [] = []
all_lines (c ∷ s) = let lines = all_lines s in if c == b'\n' then [] ∷ lines else prepend c lines

-- `std::isspace`
unfoldable pub is_space : ℕ → Bool
is_space c = c == b' ' || (leb 9 c && leb c 13)

-- What `>>` and `std::stoul` skip first.
unfoldable pub skip_spaces : Bytes → Bytes
unfolding is_space
skip_spaces [] = []
skip_spaces (c ∷ s) = let rest = skip_spaces s in if is_space c then rest else c ∷ s

-- A text up to its first space.
unfoldable pub take_word : Bytes → Bytes
unfolding is_space
take_word [] = []
take_word (c ∷ s) = let rest = c ∷ take_word s in if is_space c then [] else rest

-- `std::getline(input, line, delimiter)`: the line, and what is left of the stream.
unfoldable pub getline : ℕ → Bytes → Bytes × Bytes
getline delimiter [] = ([], [])
getline delimiter (c ∷ s) =
    let (line, rest) = getline delimiter s in if c == delimiter then ([], s) else (c ∷ line, rest)

-- A text up to its first NUL, which is what `c_str()` shows.
unfoldable pub c_str : Bytes → Bytes
c_str [] = []
c_str (c ∷ s) = let rest = c ∷ c_str s in if c == 0 then [] else rest

pub getline-append :
    (d : ℕ) (s rest : Bytes) → All (λ c. c ≢ d) s → getline d (s ++ d ∷ rest) ≡ (s, rest)
unfolding getline
getline-append d [] rest a = ground arith
getline-append d (c ∷ s) rest a = ground (arith, a.0, getline-append d s rest a.1)

pub getline_all : (d : ℕ) (s : Bytes) → All (λ c. c ≢ d) s → getline d s ≡ (s, [])
unfolding getline
getline_all d [] a = refl
getline_all d (c ∷ s) a = ground (arith, a.0, getline_all d s a.1)
