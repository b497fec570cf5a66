-- ===== src/Prelude.antt =====
-- The names that the other modules share: the libraries', passed on, and those of the children.
mod Tests
mod Lists
mod Fault
mod Dict
mod Strings
pub mod Decimal
pub mod PairSet
pub mod Table
mod Int
pub use Tests.*
pub use Lists.*
pub use Fault.*
pub use Int.*
unfoldable pub use Dict.{find, insert, erase}
pub use Dict.{find-insert, find-erase}
unfoldable pub use Strings.{bytes, str_eq, str_lt, split_at, lookup, assign}
unfoldable pub use Decimal.{fixed_digits, is_digit, decimal, read_digits}
pub use Decimal.{
  read-decimal, read-decimal_end, decimal-All, decimal-head, tens, length-decimal_below,
  filled-fixed_digits, length-decimal_above,
}
pub use Strings.{str_eq_iff, str_eq_refl, split_at_first, split_at_absent, lookup-assign}
pub use Prim.Native.Nat.{ℕ, zero, suc, ◌+◌, ◌-◌, ◌*◌, ◌/◌, ◌%◌, ◌^◌, ◌≤◌, ◌<◌, min}
pub use mathlib.Core.Path.{◌≡◌, refl, sym, ap, ◌∙◌, subst}
pub use mathlib.Core.Logic.{◌≢◌, ◌↔◌, ◌⊎◌, inl, inr}
pub use mathlib.Core.Bool.{Bool, true, false, not, ◌&&◌, ◌||◌}
pub use mathlib.Core.Option.{Option, none, some}
pub use mathlib.Core.List.{
  List, [], ◌∷◌, ◌++◌, map, append-nil, append_assoc, reverse, reverse-cons,
}
pub use native.Mathlib.Omega.{arith}
