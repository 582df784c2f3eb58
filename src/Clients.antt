-- ===== src/Clients.antt =====
-- The clients of httplib that the load balancer opens to its backends, as an interface: one call is
-- one request on a new connection. httplib is a library that the source only calls.
use load_tester_project.Base.{ℕ, Option, Bytes}
use load_tester_project.Backend.{Backend}

-- What the source reads of an `httplib::Response`.
pub record Reply : Type 0 where
  pub status : ℕ
  pub body : Bytes

-- `Net` is the network with the servers in it. `none` is a result that holds no response.
pub record Clients : Type 1 where
  pub Net : Type 0
  pub get : Backend → Bytes → Net → Option Reply × Net
  pub post : Backend → Bytes → Bytes → Net → Option Reply × Net

-- A request of a program that keeps one client to one server.
pub data Call : Type 0 where
  get : Bytes → Call
  delete : Bytes → Call
  post : Bytes → Bytes → Call
  put : Bytes → Bytes → Call

pub record Client : Type 1 where
  pub Net : Type 0
  pub send : Call → Net → Option Reply × Net
