-- ===== src/Common.antt =====
-- What the modules share: library names passed on, Boolean tests, lists over the native numbers,
-- orders (Rust's `Ord`), texts (Rust's `str`) and the results of fallible code.
mod Tests
mod Lists
pub mod Order
pub mod Int
pub mod Text
pub mod Br
pub mod Io
pub mod Search
pub mod Sort
pub mod Sets
pub use Tests.*
pub use Lists.*
pub use Prim.Native.Nat.{ℕ, zero, suc, ◌+◌, ◌-◌, ◌*◌, ◌/◌, ◌%◌, ◌^◌, ◌≤◌, ◌<◌}
pub use mathlib.Core.Path.{◌≡◌, refl, sym, ap, ◌∙◌, subst}
pub use mathlib.Core.Logic.{◌≢◌, ◌↔◌, ◌⊎◌, inl, inr}
pub use mathlib.Core.Bool.{Bool, true, false, not, ◌&&◌, ◌||◌}
pub use mathlib.Core.Option.{Option, none, some}
pub use mathlib.Core.List.{List, [], ◌∷◌, ◌++◌, map, reverse}
pub use native.Mathlib.Omega.{arith}
