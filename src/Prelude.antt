-- ===== src/Prelude.antt =====
-- Names that all parts share: the libraries', passed on, tests on numbers and text, and lists.
mod Tests
mod Lists
mod Word
mod Outcome
mod Text
mod Suffix
mod Decimal
pub use Tests.*
pub use Lists.*
pub use Word.*
pub use Outcome.*
unfoldable pub use Text.*
unfoldable pub use Suffix.*
unfoldable pub use Decimal.*
pub use Prim.Native.Nat.{ℕ, zero, suc, ◌+◌, ◌-◌, ◌*◌, ◌/◌, ◌%◌, ◌^◌, ◌≤◌, ◌<◌, min, max}
pub use mathlib.Core.Path.{◌≡◌, refl, sym, ap, ◌∙◌}
pub use mathlib.Core.Logic.{◌≢◌, ◌↔◌, ◌⊎◌, inl, inr}
pub use mathlib.Core.Bool.{Bool, true, false, not, ◌&&◌, ◌||◌}
pub use mathlib.Core.Option.{Option, none, some}
pub use mathlib.Core.List.{List, [], ◌∷◌, ◌++◌, map, append_assoc, append-nil}
pub use native.Mathlib.Omega.{arith}
