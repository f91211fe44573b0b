-- ===== src/Common.antt =====
-- Names that every module shares: the libraries', passed on, and those of the modules below. The
-- Go values that all packages use are here too: integers with their wrap-around (`Int`), byte
-- strings (`Text`, `Split`), maps (`Dict`) and the outcomes of code that can block or panic (`Run`).
mod Tests
mod Lists
mod Options
mod Int
pub mod Text
pub mod Split
pub mod Dict
pub mod Run
pub mod Threads
pub use Tests.*
pub use Lists.*
pub use Options.*
unfoldable pub use Int.*
pub use Prim.Native.Nat.{ℕ, zero, suc, ◌+◌, ◌-◌, ◌*◌, ◌/◌, ◌%◌, ◌^◌, ◌≤◌, ◌<◌}
pub use mathlib.Core.Path.{◌≡◌, refl, sym, ap, ◌∙◌, subst}
pub use mathlib.Core.Logic.{◌≢◌, ◌↔◌, ◌⊎◌, inl, inr}
pub use mathlib.Core.Bool.{Bool, true, false, not, ◌&&◌, ◌||◌}
pub use mathlib.Core.Option.{Option, none, some}
pub use mathlib.Core.List.{List, [], ◌∷◌, ◌++◌, map, append_assoc, append-nil}
pub use native.Mathlib.Omega.{arith}
