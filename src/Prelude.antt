-- ===== src/Prelude.antt =====
-- The names that the other modules share: library names passed on, Boolean tests, native lists,
-- bytes, and Rust's `Result`.
mod Tests
mod Lists
mod Outcome
pub mod Bytes
pub mod Bits
pub mod Utf8
pub mod Zeros
use Prim.Native.Nat.{
  bit_and, bit_or, bit_xor, max, min, suc, zero, ℕ, ◌%◌, ◌*◌, ◌+◌, ◌-◌, ◌/◌, ◌<◌, ◌^◌, ◌≤◌,
}
use mathlib.Core.Bool.{Bool, false, not, true, ◌&&◌, ◌||◌}
use mathlib.Core.List.{List, [], append-nil, append_assoc, map, reverse, ◌++◌, ◌∷◌}
use mathlib.Core.Logic.{inl, inr, ◌↔◌, ◌≢◌, ◌⊎◌}
use mathlib.Core.Option.{Option, none, some}
use mathlib.Core.Path.{ap, refl, subst, sym, ◌∙◌, ◌≡◌}
use native.Mathlib.Omega.{arith}
pub use Tests.*
pub use Lists.*
pub use Outcome.*
pub use Prim.Native.Nat.{ℕ, zero, suc, ◌+◌, ◌-◌, ◌*◌, ◌/◌, ◌%◌, ◌^◌, ◌≤◌, ◌<◌, min, max}
pub use Prim.Native.Nat.{bit_and, bit_or, bit_xor}
pub use mathlib.Core.Path.{◌≡◌, refl, sym, ap, ◌∙◌, subst}
pub use mathlib.Core.Logic.{◌≢◌, ◌↔◌, ◌⊎◌, inl, inr}
pub use mathlib.Core.Bool.{Bool, true, false, not, ◌&&◌, ◌||◌}
pub use mathlib.Core.Option.{Option, none, some}
pub use mathlib.Core.List.{List, [], ◌∷◌, ◌++◌, map, append_assoc, append-nil, reverse}
pub use native.Mathlib.Omega.{arith}
