-- ===== src/Prelude.antt =====
-- The names that the other modules share: those of the libraries, and those of the children,
-- which hold Boolean tests, equality as an interface, lists, maps, integers and machine words.
pub mod Tests
pub mod Lists
pub mod Maps
pub mod Int
pub mod Outcome
pub mod Text
pub mod Words
pub mod Bounded
pub use Tests.*
pub use Prim.Native.Nat.{ℕ, zero, suc, ◌+◌, ◌-◌, ◌*◌, ◌/◌, ◌%◌, ◌^◌, ◌≤◌, ◌<◌}
pub use mathlib.Core.Path.{◌≡◌, refl, sym, ap, ◌∙◌, fun_ext, subst}
pub use mathlib.Core.Logic.{◌≢◌, ◌↔◌, ◌⊎◌, inl, inr}
pub use mathlib.Core.Bool.{Bool, true, false, ◌&&◌, ◌||◌, not}
pub use mathlib.Core.Option.{Option, none, some}
pub use mathlib.Core.List.{List, [], ◌∷◌, ◌++◌, map}
pub use native.Mathlib.Omega.{arith}
