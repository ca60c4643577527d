-- ===== src/Base.antt =====
-- The names that the other modules share: the libraries', passed on, and those of the children.
mod Tests
mod Lists
mod Cut
mod Decimal
mod Text
mod Int
mod Results
mod Sort
mod Numbers
mod Whole
unfoldable pub use Tests.*
unfoldable pub use Lists.*
unfoldable pub use Cut.*
unfoldable pub use Decimal.*
unfoldable pub use Text.*
unfoldable pub use Int.*
unfoldable pub use Results.*
unfoldable pub use Sort.*
unfoldable pub use Numbers.*
unfoldable pub use Whole.*
pub use Prim.Native.Nat.{ℕ, zero, suc, ◌+◌, ◌-◌, ◌*◌, ◌/◌, ◌%◌, ◌^◌, ◌≤◌, ◌<◌}
pub use mathlib.Core.Path.{◌≡◌, refl, sym, ap, ◌∙◌}
pub use mathlib.Core.Logic.{◌≢◌, ◌↔◌, ◌⊎◌, inl, inr}
pub use mathlib.Core.Bool.{Bool, true, false, not, ◌&&◌, ◌||◌}
pub use mathlib.Core.Option.{Option, none, some}
pub use mathlib.Core.List.{List, [], ◌∷◌, ◌++◌, map, foldl, append_assoc, append-nil}
pub use native.Mathlib.Omega.{arith}
