-- ===== src/Prelude.antt =====
-- The names that the modules share: the libraries', passed on, and those of the children.
mod Tests
mod Lists
mod Runes
mod Errors
mod Int
mod Numbers
mod Decimal
pub use Tests.*
pub use Lists.*
unfoldable pub use Decimal.{format_uint}
pub use Decimal.{digits_from-format_uint, contains-format_uint, is_empty-format_uint}
pub use Errors.*
pub use Int.*
unfoldable pub use Numbers.{digits_from, digits, parse_int, parse_bool}
unfoldable pub use Runes.{
  Text, codes, text_eq, is_empty, cons_first, split_on, join, drop_while, trim_right, has_prefix,
  contains_char, contains,
}
pub use Runes.{
  split_on-ne-nil, text_eq_iff, text_eq_refl, split_on-append, split_on_none, join-split_on,
}
pub use Prim.Native.Nat.{ℕ, zero, suc, ◌+◌, ◌-◌, ◌*◌, ◌/◌, ◌%◌, ◌^◌, ◌≤◌, ◌<◌}
pub use Prim.Native.String.{String}
pub use mathlib.Core.Path.{◌≡◌, refl, sym, ap, ap₂, subst, ◌∙◌, fun_ext}
pub use mathlib.Core.Logic.{◌≢◌, ◌↔◌, ◌⊎◌, inl, inr}
pub use mathlib.Core.Bool.{Bool, true, false, not, ◌&&◌, ◌||◌}
pub use mathlib.Core.Option.{Option, none, some}
pub use mathlib.Core.List.{map-append, List, [], ◌∷◌, ◌++◌, map, append-nil, append_assoc}
pub use native.Mathlib.Omega.{arith}
