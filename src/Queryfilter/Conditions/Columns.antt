-- ===== src/Queryfilter/Conditions/Columns.antt =====
-- The condition of a column, apart: an SQL text that the operator alone decides, and one argument.
use goth_scaffold.Prelude.{
  ◌≡◌, Text, codes, ◌||◌, [], ◌∷◌, ◌++◌, text_eq, Option, none, some, arith, if◌then◌else◌,
}
use goth_scaffold.Dialect.{Dialect}
use goth_scaffold.Queryfilter.Syntax.{
  Op, op_eq, op_ne, op_gt, op_lt, op_gte, op_lte, op_prefix, op_suffix, op_like,
}
use goth_scaffold.Queryfilter.Schema.{FieldType, Arg, arg_text}
use goth_scaffold.Queryfilter.Conditions.{DbCond, cond_of, coerce, column_cond}

-- The SQL text behind the column.
unfoldable pub op_tail : Dialect → Op → Option Text
op_tail d op =
    if text_eq op op_eq
    then some (codes " = ?")
    else if text_eq op op_ne
    then some (codes " != ?")
    else if text_eq op op_gt
    then some (codes " > ?")
    else if text_eq op op_lt
    then some (codes " < ?")
    else if text_eq op op_gte
    then some (codes " >= ?")
    else if text_eq op op_lte
    then some (codes " <= ?")
    else if text_eq op op_prefix || text_eq op op_suffix || text_eq op op_like
    then some (b' ' ∷ (d.like_operator ++ codes " ?"))
    else none

abbrev pub cond_with : {A : Type 0} → Text → Arg A → Option Text → Option (DbCond A)
cond_with q arg none = none
cond_with q arg (some tail) = some (cond_of (q ++ tail) (arg ∷ []))

module _ {A : Type 0} (parse_float : Text → Option A) (d : Dialect) where
  -- The argument: typed by the field for a comparison, and a pattern for the others.
  pub op_arg : Op → Text → FieldType → Arg A
  op_arg op value typ =
      if text_eq op op_eq
        || text_eq op op_ne
        || text_eq op op_gt
        || text_eq op op_lt
        || text_eq op op_gte
        || text_eq op op_lte
      then coerce parse_float value typ
      else if text_eq op op_prefix
      then arg_text (value ++ codes "%")
      else if text_eq op op_suffix
      then arg_text (codes "%" ++ value)
      else arg_text value

  pub column_cond_lem :
      (col : Text) (op : Op) (value : Text) (typ : FieldType)
      → column_cond parse_float d col op value typ
        ≡ cond_with (d.quote_ident col) (op_arg op value typ) (op_tail d op)
  unfolding column_cond op_tail op_arg
  column_cond_lem col op value typ = ground arith
