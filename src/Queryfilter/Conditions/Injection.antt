-- ===== src/Queryfilter/Conditions/Injection.antt =====
-- option.go: which parts of a request stand in the SQL texts of the conditions.
use goth_scaffold.Prelude.{
  ◌≡◌, refl, Text, List, map, map-append, text_eq, Option, none, some, arith, Bool-cases, inl, inr,
}
use goth_scaffold.Dialect.{Dialect}
use goth_scaffold.Queryfilter.Syntax.{Op, LogicalOp, logical_and, Node, comparison, logical}
use goth_scaffold.Queryfilter.Schema.{Arg, FieldDef, Schema, is_db_level}
use goth_scaffold.Queryfilter.Conditions.Columns.{cond_with, op_arg, op_tail, column_cond_lem}
use goth_scaffold.Queryfilter.Conditions.{
  DbCond, expr_cond, db_level_cond, leaf_to_db_cond, join_conds, node_to_db_cond, single_cond,
  collect_tree,
}

-- Two trees that differ in the values of their leaves only.
pub data SameShape : Node → Node → Type 0 where
  leaves :
      {field : Text} {op : Op} (v w : Text)
      → SameShape (comparison field op v) (comparison field op w)
  trees :
      {op : LogicalOp} {l r l' r' : Node}
      → SameShape l l'
      → SameShape r r'
      → SameShape (logical op l r) (logical op l' r')

abbrev sql_of : {A : Type 0} → Option (DbCond A) → Option Text
sql_of none = none
sql_of (some c) = some c.sql

abbrev pub expr_sql : {A : Type 0} → Option (Text × List (Arg A)) → Option Text
expr_sql none = none
expr_sql (some (sql, args)) = some sql

-- The SQL expressions of the schema read the value into their arguments only.
abbrev pub HasFixedExprs : {T A : Type 0} → Schema T A → Type 0
HasFixedExprs {T} {A} schema =
    (field : Text) (def : FieldDef T A) (e : Op → Text → Option (Text × List (Arg A)))
    → schema field ≡ some def
    → def.sql_expr ≡ some e
    → (op : Op) (v w : Text) → expr_sql (e op v) ≡ expr_sql (e op w)

expr_cond-sql_of :
    {A : Type 0} (r : Option (Text × List (Arg A))) → sql_of (expr_cond r) ≡ expr_sql r
expr_cond-sql_of none = refl
expr_cond-sql_of (some (sql, args)) = refl

cond_with-sql_of :
    {A : Type 0} (q : Text) (x y : Arg A) (t : Option Text)
    → sql_of (cond_with q x t) ≡ sql_of (cond_with q y t)
cond_with-sql_of q x y none = refl
cond_with-sql_of q x y (some tail) = refl

join_conds-sql_of :
    {A : Type 0} (op : LogicalOp) (l l' r r' : Option (DbCond A))
    → sql_of l ≡ sql_of l'
    → sql_of r ≡ sql_of r'
    → sql_of (join_conds op l r) ≡ sql_of (join_conds op l' r')
join_conds-sql_of op l l' r r' h k = ground arith

single_cond-sql_of :
    {A : Type 0} (c c' : Option (DbCond A))
    → sql_of c ≡ sql_of c'
    → map (λ x. x.sql) (single_cond c) ≡ map (λ x. x.sql) (single_cond c')
single_cond-sql_of c c' h = ground arith

module _ {T A : Type 0} (parse_float : Text → Option A) (d : Dialect) (schema : Schema T A)
    (fixed : HasFixedExprs schema) where
  leaf-sql_of :
      (field : Text) (f : Option (FieldDef T A)) (op : Op) (v w : Text)
      → schema field ≡ f
      → sql_of (leaf_to_db_cond parse_float d f op v)
        ≡ sql_of (leaf_to_db_cond parse_float d f op w)
  unfolding leaf_to_db_cond
  leaf-sql_of field none op v w e = refl
  leaf-sql_of field (some def) op v w e = elim (Bool-cases (is_db_level def)) [
    | inr no_level ↦ rw no_level
    | inl level ↦ rw level (at_level def.sql_expr refl)
  ]
    where
      at_level :
          (x : Option (Op → Text → Option (Text × List (Arg A))))
          → def.sql_expr ≡ x
          → sql_of (db_level_cond parse_float d x def op v)
            ≡ sql_of (db_level_cond parse_float d x def op w)
      at_level none h = rw column_cond_lem (
          rw column_cond_lem (
            cond_with-sql_of (d.quote_ident def.column) (op_arg parse_float d op v def.typ)
              (op_arg parse_float d op w def.typ) (op_tail d op)))
      at_level (some e') h =
          rw expr_cond-sql_of (rw expr_cond-sql_of (fixed field def e' e h op v w))

  node_to_db_cond-sql_of :
      {n m : Node}
      → SameShape n m
      → sql_of (node_to_db_cond parse_float d schema n)
        ≡ sql_of (node_to_db_cond parse_float d schema m)
  unfolding node_to_db_cond
  node_to_db_cond-sql_of (leaves {field} {op} v w) = leaf-sql_of field (schema field) op v w refl
  node_to_db_cond-sql_of (trees {op} {l} {r} {l'} {r'} a b) =
      join_conds-sql_of op (node_to_db_cond parse_float d schema l)
        (node_to_db_cond parse_float d schema l') (node_to_db_cond parse_float d schema r)
        (node_to_db_cond parse_float d schema r') (node_to_db_cond-sql_of a)
        (node_to_db_cond-sql_of b)

  -- Two filters that differ only in their values send the same SQL texts, in the same order: no value
  -- of a request is spliced into SQL, if the schema's SQL expressions do not do it themselves.
  pub collect_tree-SameShape :
      {n m : Node}
      → SameShape n m
      → map (λ c. c.sql) (collect_tree parse_float d schema n)
        ≡ map (λ c. c.sql) (collect_tree parse_float d schema m)
  unfolding collect_tree
  collect_tree-SameShape (leaves {field} {op} v w) =
      single_cond-sql_of (leaf_to_db_cond parse_float d (schema field) op v)
        (leaf_to_db_cond parse_float d (schema field) op w)
        (leaf-sql_of field (schema field) op v w refl)
  collect_tree-SameShape (trees {op} {l} {r} {l'} {r'} a b) =
      elim (Bool-cases (text_eq op logical_and)) [
        | inl conj ↦ rw conj (simp (map-append, collect_tree-SameShape a, collect_tree-SameShape b))
        | inr disj ↦ rw disj (
            single_cond-sql_of (node_to_db_cond parse_float d schema (logical op l r))
              (node_to_db_cond parse_float d schema (logical op l' r'))
              (node_to_db_cond-sql_of (trees {op = op} a b)))
      ]
