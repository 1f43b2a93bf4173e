-- ===== src/Common.antt =====
-- The names that the other modules share: the libraries', passed on, and those of the children.
mod Tests
mod Lists
mod Text
mod Find
mod Decimal
mod Slots
pub mod Int
pub use Tests.*
pub use Lists.*
pub use Slots.*
unfoldable pub use Text.{bytes_eq, strchr}
unfoldable pub use Find.{is_prefix, find}
unfoldable pub use Decimal.{digits, format_nat, format_number}
pub use Decimal.{atoll, atoll-format_nat}
pub use Find.{elem, find-separator}
pub use Text.{Bytes, codes, bytes_eq→eq, bytes_eq_refl}
pub use Prim.Native.Nat.{ℕ, zero, suc, ◌+◌, ◌-◌, ◌*◌, ◌/◌, ◌%◌, ◌^◌, ◌≤◌, ◌<◌, min, max}
pub use mathlib.Core.Path.{◌≡◌, refl, sym, ap, subst, ◌∙◌, fun_ext}
pub use mathlib.Core.Logic.{◌≢◌, ◌↔◌, ◌⊎◌, inl, inr}
pub use mathlib.Core.Bool.{Bool, true, false, not, ◌&&◌, ◌||◌}
pub use mathlib.Core.Option.{Option, none, some}
pub use mathlib.Core.List.{List, [], ◌∷◌, ◌++◌, append_assoc, append-nil}
pub use native.Mathlib.Omega.{arith}
