-- ===== src/Base.antt =====
-- The names that every module shares: the libraries' names passed on, and those of the children
-- (Boolean tests, lists over native numbers, the interface of equality, JavaScript's Map).
mod Bools
mod Lists
mod Keys
mod Split
mod Results
pub use Bools.*
pub use Lists.*
pub use Keys.*
pub use Split.*
pub use Results.*
pub use Prim.Native.Nat.{ℕ, zero, suc, ◌+◌, ◌-◌, ◌*◌, ◌/◌, ◌%◌, ◌^◌, ◌≤◌, ◌<◌, min, max}
pub use mathlib.Core.Path.{◌≡◌, refl, sym, ap, ◌∙◌, subst}
pub use mathlib.Core.Logic.{◌≢◌, ◌↔◌, ◌⊎◌, inl, inr}
pub use mathlib.Core.Bool.{Bool, true, false, not, ◌&&◌, ◌||◌}
pub use mathlib.Core.Option.{Option, none, some}
pub use mathlib.Core.List.{List, [], ◌∷◌, ◌++◌, map}
pub use native.Mathlib.Omega.{arith}
