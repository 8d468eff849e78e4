-- ===== src/Queryfilter/Schema.antt =====
-- schema.go and the validation of option.go. `T` is the type of the rows; `A` holds the Go values
-- that are neither integers, Booleans nor strings, floats among them.
pub mod Laws
use goth_scaffold.Prelude.{
  Text, Bool, true, false, not, ◌&&◌, ◌||◌, if◌then◌else◌, List, [], ◌∷◌, any, is_empty, is_some,
  text_eq, parse_int, parse_bool, Option, none, some, Result, ok, err, ◌>>=◌, ℤ,
}
use goth_scaffold.Queryfilter.Syntax.{Op, Node, comparison, logical}
use goth_scaffold.Queryfilter.Sort.{SortField}

pub data FieldType : Type 0 where
  field_type_string field_type_int field_type_bool field_type_float : FieldType

-- A value of Go's `any` among the arguments of an SQL text.
pub data Arg (A : Type 0) : Type 0 where
  arg_int : ℤ → Arg A
  arg_bool : Bool → Arg A
  arg_text : Text → Arg A
  arg_any : A → Arg A

-- An error of `SQLExpr` is `none`, and so is a field that is nil.
pub record FieldDef (T A : Type 0) : Type 0 where
  pub typ : FieldType
  pub allowed_ops : List Op
  pub column : Text
  pub sql_expr : Option (Op → Text → Option (Text × List (Arg A)))
  pub filter_fn : Option (T → Op → Text → Bool)
  pub sort_column : Text
  pub sort_fn : Option (T → T → ℤ)

-- A Go map is read by its keys only.
abbrev pub Schema : Type 0 → Type 0 → Type 0
Schema T A = Text → Option (FieldDef T A)

-- The errors of the validation, with what their messages print.
pub data OptionError : Type 0 where
  unknown_field not_filterable unknown_sort_field not_sortable : Text → OptionError
  op_not_allowed : Op → Text → OptionError
  expects_integer expects_boolean expects_decimal : Text → Text → OptionError

-- `isDBLevel`
abbrev pub is_db_level : {T A : Type 0} → FieldDef T A → Bool
is_db_level f = not (is_some f.filter_fn) && (not (is_empty f.column) || is_some f.sql_expr)

-- `opsContain`
unfoldable pub ops_contain : List Op → Op → Bool
unfolding text_eq
ops_contain allowed op = any (λ o. text_eq o op) allowed

abbrev pub has_ops : List Op → Bool
has_ops [] = false
has_ops (o ∷ os) = true

-- The tests on the value, by the type of the field
unfoldable pub check_value :
    {A : Type 0} → (Text → Option A) → FieldType → Text → Text → Result OptionError Unit
unfolding parse_int parse_bool
check_value parse_float field_type_string field value = ok tt
check_value parse_float field_type_int field value =
    if is_some (parse_int value) then ok tt else err (expects_integer field value)
check_value parse_float field_type_bool field value =
    if is_some (parse_bool value) then ok tt else err (expects_boolean field value)
check_value parse_float field_type_float field value =
    if is_some (parse_float value) then ok tt else err (expects_decimal field value)

module _ {T A : Type 0} (parse_float : Text → Option A) where
  -- `case *ComparisonNode`, on what the schema has for the field
  unfoldable pub check_field : Option (FieldDef T A) → Text → Op → Text → Result OptionError Unit
  unfolding ops_contain check_value
  check_field none field op value = err (unknown_field field)
  check_field (some def) field op value =
      if is_empty def.column && not (is_some def.sql_expr) && not (is_some def.filter_fn)
      then err (not_filterable field)
      else if has_ops def.allowed_ops && not (ops_contain def.allowed_ops op)
      then err (op_not_allowed op field)
      else check_value parse_float def.typ field value

  -- `ValidateNode` of a node that is not nil
  unfoldable pub validate_tree : Schema T A → Node → Result OptionError Unit
  unfolding check_field
  validate_tree schema (comparison field op value) = check_field (schema field) field op value
  validate_tree schema (logical op left right) = do
    _ ← validate_tree schema left
    validate_tree schema right

  -- `ValidateNode`
  unfoldable pub validate_node : Schema T A → Option Node → Result OptionError Unit
  unfolding validate_tree
  validate_node schema none = ok tt
  validate_node schema (some n) = validate_tree schema n

check_sort : {T A : Type 0} → Option (FieldDef T A) → Text → Result OptionError Unit
check_sort none field = err (unknown_sort_field field)
check_sort (some def) field =
    if is_empty def.sort_column && not (is_some def.sort_fn)
    then err (not_sortable field)
    else ok tt

-- `ValidateSorts`
unfoldable pub validate_sorts :
    {T A : Type 0} → Schema T A → List SortField → Result OptionError Unit
unfolding check_sort
validate_sorts schema [] = ok tt
validate_sorts schema (s ∷ sorts) = do
  _ ← check_sort (schema s.field) s.field
  validate_sorts schema sorts
