-- ===== src/Queryfilter/Conditions.antt =====
-- option.go, the database side: conditions and orderings for the columns, and the GORM scope. The
-- dialect that `dialect.Current()` returns is a parameter, and so is the package gorm.
pub mod Columns
pub mod Marks
pub mod Injection
use goth_scaffold.Prelude.{
  Text, codes, Bool, true, false, not, ◌&&◌, ◌||◌, if◌then◌else◌, List, [], ◌∷◌, ◌++◌, any,
  is_empty, is_some, text_eq, parse_int, parse_bool, Option, none, some,
}
use goth_scaffold.Dialect.{Dialect}
use goth_scaffold.Queryfilter.Syntax.{
  Op, op_eq, op_ne, op_gt, op_lt, op_gte, op_lte, op_prefix, op_suffix, op_like, LogicalOp,
  logical_and, logical_or, Node, comparison, logical,
}
use goth_scaffold.Queryfilter.Sort.{SortField}
use goth_scaffold.Queryfilter.Schema.{
  FieldType, field_type_string, field_type_int, field_type_bool, field_type_float, Arg, arg_int,
  arg_bool, arg_text, arg_any, FieldDef, Schema, is_db_level,
}

pub record DbCond (A : Type 0) : Type 0 where
  pub sql : Text
  pub args : List (Arg A)

abbrev pub cond_of : {A : Type 0} → Text → List (Arg A) → DbCond A
cond_of sql args = record { sql = sql; args = args }

module _ {A : Type 0} (parse_float : Text → Option A) where
  abbrev arg_or_text : {B : Type 0} → (B → Arg A) → Text → Option B → Arg A
  arg_or_text f value (some b) = f b
  arg_or_text f value none = arg_text value

  unfoldable pub coerce : Text → FieldType → Arg A
  unfolding parse_int parse_bool
  coerce value field_type_string = arg_text value
  coerce value field_type_int = arg_or_text arg_int value (parse_int value)
  coerce value field_type_bool = arg_or_text arg_bool value (parse_bool value)
  coerce value field_type_float = arg_or_text arg_any value (parse_float value)

  module _ (d : Dialect) where
    -- `columnCond`; the error of an unsupported operator is `none`.
    unfoldable pub column_cond : Text → Op → Text → FieldType → Option (DbCond A)
    unfolding coerce text_eq
    column_cond col op value typ =
        let q = d.quote_ident col in
        let like = q ++ (codes " " ++ (d.like_operator ++ codes " ?")) in
        if text_eq op op_eq
        then some (cond_of (q ++ codes " = ?") (coerce value typ ∷ []))
        else if text_eq op op_ne
        then some (cond_of (q ++ codes " != ?") (coerce value typ ∷ []))
        else if text_eq op op_gt
        then some (cond_of (q ++ codes " > ?") (coerce value typ ∷ []))
        else if text_eq op op_lt
        then some (cond_of (q ++ codes " < ?") (coerce value typ ∷ []))
        else if text_eq op op_gte
        then some (cond_of (q ++ codes " >= ?") (coerce value typ ∷ []))
        else if text_eq op op_lte
        then some (cond_of (q ++ codes " <= ?") (coerce value typ ∷ []))
        else if text_eq op op_prefix
        then some (cond_of like (arg_text (value ++ codes "%") ∷ []))
        else if text_eq op op_suffix
        then some (cond_of like (arg_text (codes "%" ++ value) ∷ []))
        else if text_eq op op_like
        then some (cond_of like (arg_text value ∷ []))
        else none

abbrev pub expr_cond : {A : Type 0} → Option (Text × List (Arg A)) → Option (DbCond A)
expr_cond (some (sql, args)) = some (cond_of sql args)
expr_cond none = none

abbrev pub operator_word : LogicalOp → Text
operator_word op = if text_eq op logical_or then codes "OR" else codes "AND"

-- `fmt.Sprintf("(%s) %s (%s)", …)`
abbrev pub join_sql : Text → Text → Text → Text
join_sql op left right =
    b'(' ∷ (left ++ (b')' ∷ b' ' ∷ (op ++ (b' ' ∷ b'(' ∷ (right ++ (b')' ∷ []))))))

abbrev pub join_conds :
    {A : Type 0} → LogicalOp → Option (DbCond A) → Option (DbCond A) → Option (DbCond A)
join_conds op (some left) (some right) =
    some (cond_of (join_sql (operator_word op) left.sql right.sql) (left.args ++ right.args))
join_conds op _ _ = none

abbrev pub single_cond : {A : Type 0} → Option (DbCond A) → List (DbCond A)
single_cond none = []
single_cond (some c) = c ∷ []

module _ {T A : Type 0} (parse_float : Text → Option A) (d : Dialect) where
  abbrev pub db_level_cond :
      Option (Op → Text → Option (Text × List (Arg A)))
      → FieldDef T A
      → Op
      → Text
      → Option (DbCond A)
  db_level_cond (some f) def op value = expr_cond (f op value)
  db_level_cond none def op value = column_cond parse_float d def.column op value def.typ

  -- `leafToDBCond`, on what the schema has for the field; `false` is `none`.
  unfoldable pub leaf_to_db_cond : Option (FieldDef T A) → Op → Text → Option (DbCond A)
  unfolding column_cond
  leaf_to_db_cond none op value = none
  leaf_to_db_cond (some def) op value =
      if not (is_db_level def) then none else db_level_cond def.sql_expr def op value

  -- `nodeToDBCond`
  unfoldable pub node_to_db_cond : Schema T A → Node → Option (DbCond A)
  unfolding leaf_to_db_cond text_eq
  node_to_db_cond schema (comparison field op value) = leaf_to_db_cond (schema field) op value
  node_to_db_cond schema (logical op left right) =
      join_conds op (node_to_db_cond schema left) (node_to_db_cond schema right)

  -- `collectDBConds` of a node that is not nil
  unfoldable pub collect_tree : Schema T A → Node → List (DbCond A)
  unfolding node_to_db_cond leaf_to_db_cond text_eq
  collect_tree schema (comparison field op value) =
      single_cond (leaf_to_db_cond (schema field) op value)
  collect_tree schema (logical op left right) =
      let both = collect_tree schema left ++ collect_tree schema right in
      if text_eq op logical_and
      then both
      else single_cond (node_to_db_cond schema (logical op left right))

  -- `collectDBConds`
  unfoldable pub collect_db_conds : Schema T A → Option Node → List (DbCond A)
  unfolding collect_tree
  collect_db_conds schema none = []
  collect_db_conds schema (some n) = collect_tree schema n

pub record SortDir : Type 0 where
  pub column : Text
  pub desc : Bool

abbrev dir_of : Bool → Text → List SortDir
dir_of desc [] = []
dir_of desc (c ∷ col) = record { column = c ∷ col; desc = desc } ∷ []

module _ {T A : Type 0} where
  abbrev has_sort_fn : Option (FieldDef T A) → Bool
  has_sort_fn none = false
  has_sort_fn (some def) = is_some def.sort_fn

  -- `hasMemSort`, and the first loop of `collectDBSorts`
  unfoldable pub has_mem_sort : List SortField → Schema T A → Bool
  has_mem_sort sorts schema = any (λ s. has_sort_fn (schema s.field)) sorts

  abbrev sort_column_of : FieldDef T A → Text
  sort_column_of def = if is_empty def.sort_column then def.column else def.sort_column

  abbrev sort_dir : Option (FieldDef T A) → Bool → List SortDir
  sort_dir none desc = []
  sort_dir (some def) desc = dir_of desc (sort_column_of def)

  -- The second loop of `collectDBSorts`
  unfoldable pub sort_dirs : List SortField → Schema T A → List SortDir
  sort_dirs [] schema = []
  sort_dirs (s ∷ sorts) schema = sort_dir (schema s.field) s.desc ++ sort_dirs sorts schema

  -- `collectDBSorts`
  unfoldable pub collect_db_sorts : List SortField → Schema T A → List SortDir
  unfolding has_mem_sort sort_dirs
  collect_db_sorts sorts schema = if has_mem_sort sorts schema then [] else sort_dirs sorts schema

-- What the scope uses of `*gorm.DB`.
pub record Gorm (A : Type 0) : Type 1 where
  pub DB : Type 0
  pub where_cond : DB → Text → List (Arg A) → DB
  pub order : DB → Text → DB

module _ {A : Type 0} (d : Dialect) (g : Gorm A) where
  open g use {DB, where_cond, order}

  unfoldable pub apply_conds : List (DbCond A) → DB → DB
  apply_conds [] db = db
  apply_conds (c ∷ cs) db = apply_conds cs (where_cond db c.sql c.args)

  unfoldable pub apply_sorts : List SortDir → DB → DB
  apply_sorts [] db = db
  apply_sorts (s ∷ ss) db =
      apply_sorts ss (
        order db
          (d.quote_ident s.column ++ (b' ' ∷ (if s.desc then codes "DESC" else codes "ASC"))))

  abbrev pub scope_of : List (DbCond A) → List SortDir → Option (DB → DB)
  scope_of [] [] = none
  scope_of conds sorts = some (λ db. apply_sorts sorts (apply_conds conds db))

  -- `buildGORMScope`
  unfoldable pub build_gorm_scope :
      {T : Type 0}
      → (Text → Option A)
      → Option Node
      → List SortField
      → Schema T A
      → Option (DB → DB)
  unfolding collect_db_conds collect_db_sorts apply_conds apply_sorts
  build_gorm_scope parse_float node sorts schema =
      scope_of (collect_db_conds parse_float d schema node) (collect_db_sorts sorts schema)
