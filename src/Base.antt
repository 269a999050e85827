-- ===== src/Base.antt =====
-- The names that all modules share: the libraries', passed on, and those of the children below.
-- `Tests` has the Boolean tests and the conditional, `Results` the values that stand for Go's
-- pairs of a result and an error, `Lists` lists measured by native numbers, `Int` signed integers.
mod Tests
mod Results
mod Lists
pub mod Int
pub use Tests.*
pub use Results.*
pub use Lists.*
pub use Prim.Native.Nat.{ℕ, zero, suc, ◌+◌, ◌-◌, ◌*◌, ◌/◌, ◌%◌, ◌^◌, ◌≤◌, ◌<◌}
pub use mathlib.Core.Path.{◌≡◌, refl, sym, ap, ap₂, subst, ◌∙◌}
pub use mathlib.Core.Logic.{◌≢◌, ◌↔◌, ◌⊎◌, inl, inr}
pub use mathlib.Core.Bool.{Bool, true, false, not, ◌&&◌, ◌||◌}
pub use mathlib.Core.Option.{Option, none, some}
pub use mathlib.Core.List.{
  List, [], ◌∷◌, ◌++◌, map, reverse, append-nil, append_assoc, reverse-append, reverse-reverse,
}
pub use native.Mathlib.Omega.{arith}
