-- ===== src/Prelude.antt =====
-- What the modules share: names of the libraries, Boolean tests, lists measured by native numbers,
-- and Go's maps as association lists.
mod Tests
mod Lists
pub mod Assoc
mod Strings
pub use Tests.*
unfoldable pub use Strings.*
unfoldable pub use Lists.*
pub use Prim.Native.Nat.{ℕ, zero, suc, ◌+◌, ◌-◌, ◌*◌, ◌/◌, ◌%◌, ◌^◌, ◌≤◌, ◌<◌}
pub use mathlib.Core.Path.{◌≡◌, refl, sym, ap, ◌∙◌, subst}
pub use mathlib.Core.Logic.{◌≢◌, ◌↔◌, ◌⊎◌, inl, inr}
pub use mathlib.Core.Bool.{Bool, true, false, not, ◌&&◌, ◌||◌}
pub use mathlib.Core.Option.{Option, none, some}
pub use mathlib.Core.List.{List, [], ◌∷◌, ◌++◌, map}
pub use native.Mathlib.Omega.{arith}
unfoldable pub use native.Mathlib.Decide.{dec_lt, ℕ_discrete}
unfoldable pub use mathlib.Core.Logic.{ite}
pub use mathlib.Core.Logic.{if_pos, if_neg}
