-- ===== src/Queryfilter/Semantics/Mixed.antt =====
-- option.go: filters that are validated and that neither side takes.
use goth_scaffold.Prelude.{
  ◌≡◌, refl, ap, ◌∙◌, Text, true, ◌||◌, [], text_eq, Option, none, some, inl, inr, ◌⊎◌, arith, ok,
}
use goth_scaffold.Dialect.{Dialect}
use goth_scaffold.Queryfilter.Syntax.{Op, logical_or, Node, comparison, logical}
use goth_scaffold.Queryfilter.Schema.{
  FieldDef, Schema, is_db_level, field_type_string, validate_tree, check_field,
}
use goth_scaffold.Queryfilter.Conditions.{
  DbCond, single_cond, leaf_to_db_cond, node_to_db_cond, collect_tree,
}
use goth_scaffold.Queryfilter.Memory.{eval_leaf, eval_tree}
use goth_scaffold.Queryfilter.Semantics.Stored.{eval_tree_stored, collect_or, collect_leaf}
use goth_scaffold.Queryfilter.Semantics.Split.{eval_or, or_true}

module _ {T A : Type 0} (parse_float : Text → Option A) (d : Dialect) (schema : Schema T A) where
  -- An OR with one side that the database could take whole, and another side that it cannot, sends no
  -- condition to the database and lets every row pass in memory: the filter has no effect.
  pub mixed_or_is_dropped :
      (l r : Node) (c : DbCond A)
      → node_to_db_cond parse_float d schema (logical logical_or l r) ≡ none
      → (node_to_db_cond parse_float d schema l ≡ some c)
        ⊎ (node_to_db_cond parse_float d schema r ≡ some c)
      → (collect_tree parse_float d schema (logical logical_or l r) ≡ [])
        × ((x : T) → eval_tree schema (logical logical_or l r) x ≡ true)
  mixed_or_is_dropped l r c e (inl h) = (
    collect_or parse_float d schema logical_or l r (unfold text_eq in refl) ∙ ap single_cond e,
    λ x.
        eval_or schema logical_or l r x (unfold text_eq in refl)
        ∙ ap (λ b. b || eval_tree schema r x) (eval_tree_stored parse_float d schema l c x h),
  )
  mixed_or_is_dropped l r c e (inr h) = (
    collect_or parse_float d schema logical_or l r (unfold text_eq in refl) ∙ ap single_cond e,
    λ x.
        eval_or schema logical_or l r x (unfold text_eq in refl)
        ∙ ap (λ b. eval_tree schema l x || b) (eval_tree_stored parse_float d schema r c x h)
        ∙ or_true (eval_tree schema l x),
  )

  leaf_level :
      (def : FieldDef T A) (op : Op) (value : Text) (x : T)
      → is_db_level def ≡ true
      → eval_leaf (some def) x op value ≡ true
  unfolding eval_leaf
  leaf_level def op value x h = ground arith

  accepted :
      (field : Text) (def : FieldDef T A) (op : Op) (value : Text)
      → def.typ ≡ field_type_string
      → def.allowed_ops ≡ []
      → is_db_level def ≡ true
      → check_field parse_float (some def) field op value ≡ ok tt
  unfolding check_field
  accepted field def op value t o level = ground arith

  -- A comparison of a string field whose `SQLExpr` refuses the value passes the validation, if the
  -- operator is allowed, sends no condition, and lets every row pass in memory.
  pub refused_expr_is_dropped :
      (field : Text) (def : FieldDef T A) (op : Op) (value : Text)
      → schema field ≡ some def
      → def.typ ≡ field_type_string
      → def.allowed_ops ≡ []
      → is_db_level def ≡ true
      → leaf_to_db_cond parse_float d (some def) op value ≡ none
      → (validate_tree parse_float schema (comparison field op value) ≡ ok tt)
        × (collect_tree parse_float d schema (comparison field op value) ≡ [])
        × ((x : T) → eval_tree schema (comparison field op value) x ≡ true)
  refused_expr_is_dropped field def op value e t o level none_cond = (
    unfold validate_tree in rw e (accepted field def op value t o level),
    collect_leaf parse_float d schema field op value
        ∙ ap (λ f. single_cond (leaf_to_db_cond parse_float d f op value)) e
        ∙ ap single_cond none_cond,
    λ x. unfold eval_tree in rw e (leaf_level def op value x level),
  )
