-- ===== src/Common.antt =====
-- The names that the components share: those of the libraries, passed on, and those of the
-- children.
mod Tests
mod Lists
mod Outcomes
mod Slices
mod Text
mod Errors
mod Bytes
mod Integers
pub mod Actions
pub mod Sorting
pub mod Bits
pub mod Masks
unfoldable pub use Tests.*
pub use Lists.*
pub use Outcomes.*
pub use Text.*
unfoldable pub use Slices.*
unfoldable pub use Errors.*
unfoldable pub use Bytes.*
unfoldable pub use Integers.*
pub use Prim.Native.Nat.{
  ℕ, zero, suc, ◌+◌, ◌-◌, ◌*◌, ◌/◌, ◌%◌, ◌^◌, ◌≤◌, ◌<◌, bit_and, bit_or, bit_xor, Ordering, compare,
}
pub use mathlib.Core.Path.{◌≡◌, refl, sym, ap, ap₂, ◌∙◌, subst}
pub use mathlib.Core.Logic.{◌≢◌, ◌↔◌, ◌⊎◌, inl, inr, dite}
pub use mathlib.Core.Bool.{Bool, true, false, not, ◌&&◌, ◌||◌}
pub use mathlib.Core.Option.{Option, none, some}
pub use mathlib.Core.List.{List, [], ◌∷◌, ◌++◌, append-nil, append_assoc}
pub use native.Mathlib.Omega.{arith}
unfoldable pub use native.Mathlib.Decide.{dec_lt}
