-- ===== src/Sockets.antt =====
-- The sockets of the operating system, which the repository does not contain, as an interface: the
-- calls that the load balancer makes, and what POSIX says of them. `Os` is the system with the peers
-- behind its connections.
use load_tester_project.Base.{ℕ, ◌≤◌, Bool, true, ◌++◌, take, Option, some, Bytes, ◌≡◌, ◌≢◌, length}

-- What a call of `recv` comes to: bytes, where no bytes is a result that is not positive; or it
-- never returns, since the peer stays silent and no timeout is set.
pub data Received : Type 0 where
  gives : Bytes → Received
  waits_forever : Received

-- What a call of `send` comes to: the number of bytes taken, where 0 is a result that is not
-- positive; it never returns, since the peer reads nothing; or SIGPIPE ends the process, since the
-- peer has closed the connection.
pub data Sent : Type 0 where
  takes : ℕ → Sent
  stuck : Sent
  broken_pipe : Sent

pub record Sockets : Type 1 where
  pub Os : Type 0
  -- `socket(AF_INET, SOCK_STREAM, 0)`; `none` is a result below 0.
  pub socket : Os → Option ℕ × Os
  -- `connect` to an address and a port; `false` is a result below 0.
  pub connect : ℕ → Bytes → ℕ → Os → Bool × Os
  pub close : ℕ → Os → Os
  -- `send` with no flags.
  pub send : ℕ → Bytes → Os → Sent × Os
  -- `recv` into a buffer of 4096 bytes.
  pub recv : ℕ → Os → Received × Os
  -- The descriptor is open.
  pub is_open : ℕ → Os → Bool
  -- All the bytes that the system has taken on a descriptor, and all that it has given.
  pub traffic : ℕ → Os → Bytes × Bytes
  -- A call on one descriptor leaves another that is open open.
  pub socket_law : (c : ℕ) (os : Os) → is_open c os ≡ true → is_open c (socket os).1 ≡ true
  -- A new descriptor is none that is open.
  pub socket_fresh : (c : ℕ) (os : Os) → is_open c os ≡ true → (socket os).0 ≢ some c
  pub connect_law :
      (c s : ℕ) (ip : Bytes) (port : ℕ) (os : Os)
      → c ≢ s
      → is_open c os ≡ true
      → is_open c (connect s ip port os).1 ≡ true
  pub close_law : (c s : ℕ) (os : Os) → c ≢ s → is_open c os ≡ true → is_open c (close s os) ≡ true
  pub send_law :
      (c s : ℕ) (bytes : Bytes) (os : Os)
      → is_open c os ≡ true
      → is_open c (send s bytes os).1 ≡ true
  pub recv_law : (c s : ℕ) (os : Os) → is_open c os ≡ true → is_open c (recv s os).1 ≡ true
  -- Only `send` and `recv` move bytes, on their own descriptor.
  pub socket-traffic : (c : ℕ) (os : Os) → traffic c (socket os).1 ≡ traffic c os
  pub connect-traffic :
      (c s : ℕ) (ip : Bytes) (port : ℕ) (os : Os)
      → traffic c (connect s ip port os).1 ≡ traffic c os
  pub close-traffic : (c s : ℕ) (os : Os) → traffic c (close s os) ≡ traffic c os
  pub send_other :
      (c s : ℕ) (bytes : Bytes) (os : Os) → c ≢ s → traffic c (send s bytes os).1 ≡ traffic c os
  pub recv_other : (c s : ℕ) (os : Os) → c ≢ s → traffic c (recv s os).1 ≡ traffic c os
  pub send_takes :
      (s : ℕ) (bytes : Bytes) (n : ℕ) (os : Os)
      → (send s bytes os).0 ≡ takes n
      → traffic s (send s bytes os).1 ≡ ((traffic s os).0 ++ take n bytes, (traffic s os).1)
  pub send-le :
      (s : ℕ) (bytes : Bytes) (n : ℕ) (os : Os) → (send s bytes os).0 ≡ takes n → n ≤ length bytes
  pub recv_gives :
      (s : ℕ) (bytes : Bytes) (os : Os)
      → (recv s os).0 ≡ gives bytes
      → traffic s (recv s os).1 ≡ ((traffic s os).0, (traffic s os).1 ++ bytes)
