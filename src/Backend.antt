-- ===== src/Backend.antt =====
-- load_balancer/include/Backend.h, and the names that HashRing.cpp gives to a backend.
pub mod Identity
use load_tester_project.Base.{◌++◌, Bytes, codes}
use load_tester_project.Base.Decimal.{ℤ, int_to_string}

pub data BackendStatus : Type 0 where
  up recovering down : BackendStatus

pub record Backend : Type 0 where
  pub ip : Bytes
  pub port : ℤ
  pub status : BackendStatus

-- `ip + ":" + std::to_string(port)`
unfoldable pub node_id : Backend → Bytes
node_id b = b.ip ++ (codes ":" ++ int_to_string b.port)

-- `ip + " :" + std::to_string(port)`, as `getNodes` writes it in its first loop.
unfoldable pub spaced_id : Backend → Bytes
spaced_id b = b.ip ++ (codes " :" ++ int_to_string b.port)
