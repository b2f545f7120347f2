-- ===== src/Prelude.antt =====
-- The names that the other modules share: the libraries', passed on, and those of its children
-- (Boolean tests, lists by native index, signed integers, fixed-width words, sums, ranges).
mod Tests
mod Lists
mod Int
mod Words
mod Sums
mod Ranges
mod Wrap
mod Slices
pub use Tests.*
pub use Lists.*
pub use Int.*
pub use Sums.*
pub use Ranges.*
pub use Wrap.*
pub use Slices.*
pub use Words.*
pub use Prim.Native.Nat.{ℕ, zero, suc, ◌+◌, ◌-◌, ◌*◌, ◌/◌, ◌%◌, ◌^◌, ◌≤◌, ◌<◌, min, max}
pub use mathlib.Core.Path.{◌≡◌, refl, sym, ap, ap₂, subst, ◌∙◌, fun_ext}
pub use mathlib.Core.Logic.{◌≢◌, ◌↔◌, ◌⊎◌, inl, inr}
pub use mathlib.Core.Bool.{Bool, true, false, not, ◌&&◌, ◌||◌}
pub use mathlib.Core.Option.{Option, none, some, some-injective}
pub use mathlib.Core.List.{List, [], ◌∷◌, ◌++◌, map, append_assoc, append-nil}
pub use native.Mathlib.Omega.{arith}
unfoldable pub use native.Mathlib.Decide.{dec_lt, ℕ_discrete}
