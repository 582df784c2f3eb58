-- ===== src/Router/Reach.antt =====
-- The router over time: the threads of the load balancer call its methods one after another, in
-- any order.
use load_tester_project.Base.{ℕ, List, some, Bytes, ◌≡◌}
use load_tester_project.Base.Decimal.{ℤ}
use load_tester_project.Base.Result.{ok}
use load_tester_project.Base.UnorderedMap.{find, int_keys}
use load_tester_project.Backend.{Backend}
use load_tester_project.Router.{
  Router, init, remove_backend, mark_backend_recovering, mark_backend_up, mark_backend_down,
}
use load_tester_project.Router.Validity.{
  IsValid, IsConsistent, init-IsValid, remove_backend-IsValid, mark_backend_recovering-IsValid,
  mark_backend_up-IsValid, mark_backend_down-IsValid,
}

-- One call of a method that changes the router. A backend is removed under the address that it is
-- registered with.
pub data Step (hasher : Bytes → ℕ) : Router → Router → Type 0 where
  recovers : (port : ℤ) (r : Router) → Step hasher r (mark_backend_recovering hasher port r)
  comes_up : (port : ℤ) (r : Router) → Step hasher r (mark_backend_up hasher port r)
  goes_down : (port : ℤ) (r : Router) → Step hasher r (mark_backend_down hasher port r)
  leaves :
      (b c : Backend) (r : Router)
      → find b.port r.backends ≡ some c
      → c.ip ≡ b.ip
      → Step hasher r (remove_backend hasher b r)

pub data Reach (hasher : Bytes → ℕ) (r : Router) : Router → Type 0 where
  here : Reach hasher r r
  next : {s t : Router} → Reach hasher r s → Step hasher s t → Reach hasher r t

module _ {hasher : Bytes → ℕ} where
  Step-IsValid : {r s : Router} → Step hasher r s → IsValid hasher r → IsValid hasher s
  Step-IsValid (recovers port r) v = mark_backend_recovering-IsValid hasher port r v
  Step-IsValid (comes_up port r) v = mark_backend_up-IsValid hasher port r v
  Step-IsValid (goes_down port r) v = mark_backend_down-IsValid hasher port r v
  Step-IsValid (leaves b c r found ip) v = remove_backend-IsValid hasher b c r found ip v

  pub Reach-trans : {r s t : Router} → Reach hasher r s → Reach hasher s t → Reach hasher r t
  Reach-trans p here = p
  Reach-trans p (next q st) = next (Reach-trans p q) st

  pub Reach-IsValid : {r s : Router} → IsValid hasher r → Reach hasher r s → IsValid hasher s
  Reach-IsValid v here = v
  Reach-IsValid v (next reached st) = Step-IsValid st (Reach-IsValid v reached)

-- A router built from backends that are not DOWN, no port with two addresses, is valid after
-- every sequence of calls in which a backend is removed only under the address that it is
-- registered with.
pub reachable-IsValid :
    (hasher : Bytes → ℕ) (bs : List Backend) (vnodes : ℕ) (r s : Router)
    → IsConsistent hasher bs
    → init hasher bs vnodes ≡ ok r
    → Reach hasher r s
    → IsValid hasher s
reachable-IsValid hasher bs vnodes r s c built reached =
    Reach-IsValid (init-IsValid hasher bs vnodes c built) reached
