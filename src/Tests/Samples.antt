-- ===== src/Tests/Samples.antt =====
-- The three servers that LoadBalancer.cpp starts with, and a hash to run the model with.
use load_tester_project.Base.{ℕ, ◌+◌, ◌*◌, [], ◌∷◌, Bytes, codes}
use load_tester_project.Base.Decimal.{pos}
use load_tester_project.Backend.{Backend, up}

-- A polynomial hash.
hash_from : ℕ → Bytes → ℕ
hash_from acc [] = acc
hash_from acc (c ∷ s) = hash_from (acc * 31 + c) s

unfoldable pub toy_hash : Bytes → ℕ
unfolding hash_from
toy_hash = hash_from 7

abbrev pub first_server : Backend
first_server = record { ip = codes "127.0.0.1"; port = pos 9001; status = up }

abbrev pub second_server : Backend
second_server = record { ip = codes "127.0.0.1"; port = pos 9002; status = up }

abbrev pub third_server : Backend
third_server = record { ip = codes "127.0.0.1"; port = pos 9003; status = up }
