-- ===== src/Base.antt =====
-- The names that all modules share: the libraries', passed on, the tests on numbers and process
-- identifiers, fixed-width counters, and the lists of scheduler.h's queues.
mod Tests
mod Lists
mod Words
mod Int
pub mod Keyed
pub use Tests.*
pub use Lists.*
pub use Int.{ℤ, pos, negsuc, eqz_iff, is_neg, minus_one, in_range}
unfoldable pub use Int.{eqz}
pub use Words.*
pub use Prim.Native.Nat.{ℕ, zero, suc, ◌+◌, ◌-◌, ◌*◌, ◌/◌, ◌%◌, ◌^◌, ◌≤◌, ◌<◌}
pub use mathlib.Core.Path.{◌≡◌, refl, sym, ap, ◌∙◌, subst}
pub use mathlib.Core.Logic.{◌≢◌, ◌↔◌, ◌⊎◌, inl, inr}
pub use mathlib.Core.Bool.{Bool, true, false, not, ◌&&◌, ◌||◌}
pub use mathlib.Core.Option.{Option, none, some}
pub use mathlib.Core.List.{List, [], ◌∷◌, ◌++◌, map}
pub use native.Mathlib.Omega.{arith}
