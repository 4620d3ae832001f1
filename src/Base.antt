-- ===== src/Base.antt =====
-- The names that the components share: the libraries', passed on, and those of the children.
-- `Tests` has the Boolean tests, `Lists` lists by native index,
-- `Buffers` the byte strings and JavaScript strings with their order, `Outcome` values or errors, `Integers` the integers, `Sums` sums, `Ratios` shares of a sum.
mod Tests
mod Lists
mod Buffers
mod Outcome
mod Integers
mod Sums
mod Ratios
pub use Tests.*
pub use Lists.*
unfoldable pub use Buffers.*
pub use Outcome.*
pub use Integers.*
unfoldable pub use Sums.*
pub use Ratios.*
pub use Prim.Native.Nat.{ℕ, zero, suc, ◌+◌, ◌-◌, ◌*◌, ◌/◌, ◌%◌, ◌^◌, ◌≤◌, ◌<◌}
pub use mathlib.Core.Path.{◌≡◌, refl, sym, ap, ap₂, ◌∙◌, subst}
pub use mathlib.Core.Logic.{◌≢◌, ◌↔◌, ◌⊎◌, inl, inr}
pub use mathlib.Core.Bool.{Bool, true, false, not, ◌&&◌, ◌||◌}
pub use mathlib.Core.Option.{Option, none, some}
pub use mathlib.Core.List.{List, [], ◌∷◌, ◌++◌, map, append_assoc, append-nil}
pub use native.Mathlib.Omega.{arith}
unfoldable pub use native.Mathlib.Decide.{dec_lt, dec_le, ℕ_discrete}
