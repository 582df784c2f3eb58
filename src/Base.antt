-- ===== src/Base.antt =====
-- Names that every module shares: those of the libraries, passed on, and those of the children.
-- The children model the parts of the C++ standard library that the source uses.
mod Tests
mod Lists
mod Str
pub mod Decimal
pub mod UnorderedMap
pub mod Result
pub mod Search
pub mod Streams
pub mod Digits
pub mod StdMap
pub mod StdSet
pub use Tests.*
pub use Lists.*
unfoldable pub use Str.*
pub use Prim.Native.Nat.{ℕ, zero, suc, ◌+◌, ◌-◌, ◌*◌, ◌/◌, ◌%◌, ◌^◌, ◌≤◌, ◌<◌, min}
pub use mathlib.Core.Path.{◌≡◌, refl, sym, ap, ◌∙◌, ◌≡⟨◌⟩◌, ◌∎}
pub use mathlib.Core.Logic.{◌≢◌, ◌↔◌, ◌⊎◌, inl, inr}
pub use mathlib.Core.Bool.{Bool, true, false, not, ◌&&◌, ◌||◌}
pub use mathlib.Core.Option.{Option, none, some}
pub use mathlib.Core.List.{List, [], ◌∷◌, ◌++◌, map, append-nil, append_assoc, map-append}
pub use native.Mathlib.Omega.{arith}
