-- ===== src/Prelude.antt =====
-- Names that every other module shares: those of the libraries, and those of five children.
mod Tests
mod Lists
mod Int
mod Outcome
mod Rows
mod Keys
mod Select
mod Frames
pub mod Reading
pub use Tests.*
unfoldable pub use Lists.*
pub use Int.*
pub use Outcome.*
pub use Rows.*
pub use Keys.*
pub use Select.*
pub use Frames.*
pub use Prim.Native.Nat.{ℕ, zero, suc, ◌+◌, ◌-◌, ◌*◌, ◌≤◌, ◌<◌, min}
pub use Prim.Native.String.{String}
pub use mathlib.Core.Path.{◌≡◌, refl, sym, ap, subst, ◌∙◌}
pub use mathlib.Core.Logic.{◌≢◌, ◌↔◌, ◌⊎◌, inl, inr}
pub use mathlib.Core.Bool.{Bool, true, false, not, ◌&&◌, ◌||◌}
pub use mathlib.Core.Option.{Option, none, some}
pub use mathlib.Core.List.{List, [], ◌∷◌, ◌++◌, map}
pub use native.Mathlib.Omega.{arith}
pub use text.Mathlib.Text.{◌==◌ as str_eq}
pub use text.Mathlib.TextEquality.{eq_iff}
