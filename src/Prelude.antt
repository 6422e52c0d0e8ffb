-- ===== src/Prelude.antt =====
-- Names, tests, lists and error codes that every module of the development shares.
mod Tests
mod Lists
mod Bytes
mod Errors
mod Faults
unfoldable pub use Tests.*
unfoldable pub use Lists.*
unfoldable pub use Bytes.*
unfoldable pub use Errors.*
unfoldable pub use Faults.*
pub use Prim.Native.Nat.{
  ℕ, zero, suc, ◌+◌, ◌-◌, ◌*◌, ◌/◌, ◌%◌, ◌^◌, ◌≤◌, ◌<◌, bit_and, bit_or, min, max,
}
pub use mathlib.Core.Path.{◌≡◌, refl, sym, ap, subst, ◌∙◌}
pub use mathlib.Core.Logic.{◌≢◌, ◌↔◌, ◌⊎◌, inl, inr}
pub use mathlib.Core.Bool.{Bool, true, false, not, ◌&&◌, ◌||◌}
pub use mathlib.Core.Option.{Option, none, some}
pub use mathlib.Core.List.{List, [], ◌∷◌, ◌++◌, map, reverse}
pub use native.Mathlib.Omega.{arith}
