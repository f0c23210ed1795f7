-- ===== src/Base.antt =====
-- What the modules share: library names passed on, Boolean tests, text, maps and results.
mod Tests
mod Text
mod Assoc
mod Distinct
mod Inserted
mod Int
mod Errors
pub mod Exec
pub mod Cases
pub mod Handler
unfoldable pub use Tests.*
unfoldable pub use Text.*
unfoldable pub use Assoc.*
unfoldable pub use Distinct.*
unfoldable pub use Inserted.*
unfoldable pub use Int.*
unfoldable pub use Errors.*
pub use Prim.Native.Nat.{ℕ, zero, suc, ◌+◌, ◌-◌, ◌*◌, ◌/◌, ◌≤◌, ◌<◌}
pub use Prim.Native.String.{String}
pub use mathlib.Core.Path.{◌≡◌, refl, sym, ap, ◌∙◌}
pub use mathlib.Core.Logic.{◌≢◌, ◌↔◌, ◌⊎◌, inl, inr}
pub use mathlib.Core.Bool.{Bool, true, false, not, ◌&&◌, ◌||◌}
pub use mathlib.Core.Option.{Option, none, some}
pub use mathlib.Core.List.{List, [], ◌∷◌, ◌++◌}
pub use native.Mathlib.Omega.{arith}
pub use text.Mathlib.TextEquality.{eq_iff}
pub use mathlib.Core.Path.{subst}
