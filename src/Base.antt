-- ===== src/Base.antt =====
-- What the other modules share: the libraries' names, passed on, and the children's.
mod Tests
mod Lists
mod Words
mod Strings
pub use Tests.*
pub use Lists.*
pub use Words.*
pub use Strings.{Text, codes, same_refl, same_iff, is_empty_iff}
unfoldable pub use Strings.{same, is_empty, contains}
pub use Prim.Native.Nat.{ℕ, zero, suc, ◌+◌, ◌-◌, ◌*◌, ◌/◌, ◌%◌, ◌^◌, ◌≤◌, ◌<◌}
pub use mathlib.Core.Path.{◌≡◌, refl, sym, ap, ap₂, ◌∙◌}
pub use mathlib.Core.Logic.{◌≢◌, ◌↔◌, ◌⊎◌, inl, inr}
pub use mathlib.Core.Bool.{Bool, true, false, not, ◌&&◌, ◌||◌}
pub use mathlib.Core.Option.{Option, none, some}
pub use mathlib.Core.List.{List, [], ◌∷◌, ◌++◌, map}
pub use native.Mathlib.Omega.{arith}
