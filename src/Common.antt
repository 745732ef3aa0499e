-- ===== src/Common.antt =====
-- Names that every module shares: those of the libraries, and the children below. ASSERT of
-- NachOS-4.0/code/lib/debug.h is `assert`, and a failed one ends in `aborted`.
mod Tests
mod Lists
mod Asserts
pub mod Bits
pub mod Int
pub mod Words
pub mod WordBounds
pub use Tests.*
pub use Lists.*
pub use Asserts.*
pub use Prim.Native.Nat.{ℕ, zero, suc, ◌+◌, ◌-◌, ◌*◌, ◌/◌, ◌%◌, ◌^◌, ◌≤◌, ◌<◌, min, max}
pub use Prim.Native.Nat.{bit_and, bit_or, bit_xor}
pub use mathlib.Core.Path.{◌≡◌, refl, sym, ap, ◌∙◌}
pub use mathlib.Core.Logic.{◌≢◌, ◌↔◌, ◌⊎◌, inl, inr}
pub use mathlib.Core.Bool.{Bool, true, false, not, ◌&&◌, ◌||◌}
pub use mathlib.Core.Option.{Option, none, some}
pub use mathlib.Core.List.{List, [], ◌∷◌, ◌++◌, map}
pub use native.Mathlib.Omega.{arith}
