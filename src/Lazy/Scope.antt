-- ===== src/Lazy/Scope.antt =====
-- app/models/helper_lazy_scope.go and app/repositories/lazy_db_registry.go: the named scopes, and the
-- SQL of their conditions.
use goth_scaffold.Prelude.{
  ◌≡◌, Text, codes, Bool, false, ◌||◌, if◌then◌else◌, List, [], ◌∷◌, ◌++◌, text_eq, text_eq_iff,
  is_empty, Option, none, some, arith,
}
use goth_scaffold.Dialect.{Dialect}
use goth_scaffold.Queryfilter.Syntax.{
  op_eq, op_ne, op_gt, op_lt, op_gte, op_lte, op_prefix, op_suffix, op_like,
}
use goth_scaffold.Queryfilter.Schema.{Arg, arg_text, field_type_string}
use goth_scaffold.Queryfilter.Conditions.{DbCond, cond_of, column_cond, Gorm}

pub record LazyCondition (A : Type 0) : Type 0 where
  pub column : Text
  pub op : Text
  pub value : Arg A

abbrev pub lazy_op_empty : Text
lazy_op_empty = codes "empty"

abbrev pub lazy_op_not_empty : Text
lazy_op_not_empty = codes "notempty"

-- A scope's function may read the state `W` of the program.
abbrev pub LazyScope : Type 0 → Type 0 → Type 0
LazyScope W A = W → List (LazyCondition A)

-- The registry
abbrev pub Scopes : Type 0 → Type 0 → Type 0
Scopes W A = Text → Option (LazyScope W A)

module _ {W A : Type 0} where
  -- `RegisterLazyScope`; a scope that is nil is none.
  unfoldable pub register_lazy_scope : Text → Option (LazyScope W A) → Scopes W A → Scopes W A
  unfolding text_eq
  register_lazy_scope name none scopes = scopes
  register_lazy_scope name (some scope) scopes =
      if is_empty name then scopes else λ n. if text_eq name n then some scope else scopes n

  abbrev pub run_scope : Option (LazyScope W A) → W → List (LazyCondition A)
  run_scope none w = []
  run_scope (some scope) w = scope w

  -- `_ResolveLazyScope`; nil is the empty list.
  unfoldable pub resolve_lazy_scope : Scopes W A → Text → W → List (LazyCondition A)
  resolve_lazy_scope scopes name w = if is_empty name then [] else run_scope (scopes name) w

module _ {A : Type 0} where
  module _ (d : Dialect) (sprint : Arg A → Text) where
    -- `_RenderLazyCond`; `sprint` is `fmt.Sprintf("%v", …)`.
    unfoldable pub render_lazy_cond : LazyCondition A → Option (DbCond A)
    unfolding text_eq
    render_lazy_cond c =
        let col = d.quote_ident c.column in
        if text_eq c.op op_eq
        then some (cond_of (col ++ codes " = ?") (c.value ∷ []))
        else if text_eq c.op op_ne
        then some (cond_of (col ++ codes " != ?") (c.value ∷ []))
        else if text_eq c.op op_gt
        then some (cond_of (col ++ codes " > ?") (c.value ∷ []))
        else if text_eq c.op op_gte
        then some (cond_of (col ++ codes " >= ?") (c.value ∷ []))
        else if text_eq c.op op_lt
        then some (cond_of (col ++ codes " < ?") (c.value ∷ []))
        else if text_eq c.op op_lte
        then some (cond_of (col ++ codes " <= ?") (c.value ∷ []))
        else if text_eq c.op op_like
        then some (cond_of (col ++ codes " LIKE ?") (c.value ∷ []))
        else if text_eq c.op op_prefix
        then some (cond_of (col ++ codes " LIKE ?") (arg_text (sprint c.value ++ codes "%") ∷ []))
        else if text_eq c.op op_suffix
        then some (cond_of (col ++ codes " LIKE ?") (arg_text (codes "%" ++ sprint c.value) ∷ []))
        else if text_eq c.op lazy_op_empty
        then some (cond_of (codes "COALESCE(" ++ (col ++ codes ", '') = ''")) [])
        else if text_eq c.op lazy_op_not_empty
        then some (cond_of (codes "COALESCE(" ++ (col ++ codes ", '') != ''")) [])
        else none

    abbrev pub where_cond_if : (g : Gorm A) → Option (DbCond A) → g.DB → g.DB
    where_cond_if g none db = db
    where_cond_if g (some c) db = g.where_cond db c.sql c.args

    -- `_ApplyLazyConds`
    unfoldable pub apply_lazy_conds : (g : Gorm A) → List (LazyCondition A) → g.DB → g.DB
    unfolding render_lazy_cond
    apply_lazy_conds g [] db = db
    apply_lazy_conds g (c ∷ conds) db =
        apply_lazy_conds g conds (where_cond_if g (render_lazy_cond c) db)

-- The operator is one that a scope has and a filter has not.
abbrev is_scope_op : Text → Bool
is_scope_op op = text_eq op lazy_op_empty || text_eq op lazy_op_not_empty

-- A scope's condition on a text value is the SQL and the arguments that a filter's comparison with
-- the same operator has on a text column, on a dialect whose LIKE operator is "LIKE", for all
-- operators but the two that only a scope has, the unknown ones included, which neither renders.
pub render_lazy_cond-column_cond :
    {A : Type 0} (parse_float : Text → Option A) (d : Dialect) (sprint : Arg A → Text)
    (column op text : Text)
    → d.like_operator ≡ codes "LIKE"
    → sprint (arg_text text) ≡ text
    → is_scope_op op ≡ false
    → render_lazy_cond d sprint (record { column = column; op = op; value = arg_text text })
      ≡ column_cond parse_float d column op text field_type_string
unfolding render_lazy_cond column_cond goth_scaffold.Queryfilter.Conditions.coerce
render_lazy_cond-column_cond parse_float d sprint column op text like shown scope_only = ground (
  arith,
  text_eq_iff op op_lt,
  text_eq_iff op op_gte,
  text_eq_iff op op_lte,
  text_eq_iff op op_prefix,
  text_eq_iff op op_suffix,
  text_eq_iff op op_like,
)
