-- ===== src/Base/Result.antt =====
-- A call that may throw.
use mathlib.Core.Option.{Option, none, some}

pub data Exception : Type 0 where
  invalid_argument runtime_error length_error : Exception
  -- A call of the system that never returns, and a signal that ends the process.
  blocked killed : Exception
  -- Not of the source: the model's loop has used up its fuel.
  out_of_fuel : Exception
  -- A loop that is to go on has not ended within the rounds that the model looks at.
  still_running : Exception

pub data Result {ℓ} (A : Type ℓ) : Type ℓ where
  ok : A → Result A
  throw : Exception → Result A

infixl 5 ◌>>=◌
abbrev pub ◌>>=◌ {ℓ κ} : {A : Type ℓ} {B : Type κ} → Result A → (A → Result B) → Result B
ok a >>= f = f a
throw e >>= f = throw e

abbrev pub fueled {ℓ} : {A : Type ℓ} → Option A → Result A
fueled none = throw out_of_fuel
fueled (some a) = ok a
