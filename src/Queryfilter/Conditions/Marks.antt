-- ===== src/Queryfilter/Conditions/Marks.antt =====
-- option.go: the placeholders of an SQL text and the arguments of its condition.
use goth_scaffold.Prelude.{
  ℕ, ◌+◌, ◌≡◌, refl, Text, codes, not, ◌==◌, List, [], ◌∷◌, ◌++◌, length, length-append, Option,
  none, some, arith, if◌then◌else◌, if_rule,
}
use goth_scaffold.Dialect.{Dialect}
use goth_scaffold.Queryfilter.Syntax.{Op, LogicalOp, Node, comparison, logical}
use goth_scaffold.Queryfilter.Schema.{Arg, FieldDef, Schema, is_db_level}
use goth_scaffold.Queryfilter.Conditions.Columns.{cond_with, op_arg, op_tail, column_cond_lem}
use goth_scaffold.Queryfilter.Conditions.{
  DbCond, expr_cond, db_level_cond, leaf_to_db_cond, operator_word, join_sql, join_conds,
  node_to_db_cond,
}

-- The question marks of a text.
unfoldable pub marks : Text → ℕ
marks [] = 0
marks (c ∷ s) = (if c == b'?' then 1 else 0) + marks s

marks-append : (s t : Text) → marks (s ++ t) ≡ marks s + marks t
unfolding marks
marks-append [] t = omega arith
marks-append (c ∷ s) t = omega (arith, marks-append s t)

abbrev pub IsBalanced : {A : Type 0} → DbCond A → Type 0
IsBalanced c = marks c.sql ≡ length c.args

-- The schema and the dialect put no question mark where it would count as a placeholder.
pub record IsMarked {T A : Type 0} (d : Dialect) (schema : Schema T A) : Type 0 where
  pub like : marks d.like_operator ≡ 0
  pub columns :
      (field : Text) (def : FieldDef T A)
      → schema field ≡ some def
      → marks (d.quote_ident def.column) ≡ 0
  pub exprs :
      (field : Text) (def : FieldDef T A) (e : Op → Text → Option (Text × List (Arg A))) (op : Op)
      (value sql : Text) (args : List (Arg A))
      → schema field ≡ some def
      → def.sql_expr ≡ some e
      → e op value ≡ some (sql, args)
      → marks sql ≡ length args

-- A predicate of the condition, if there is one.
abbrev WhenSome : {A : Type 0} → (DbCond A → Type 0) → Option (DbCond A) → Type 0
WhenSome P none = Unit
WhenSome P (some c) = P c

op_tail-marks :
    (d : Dialect) (op : Op) (tail : Text)
    → marks d.like_operator ≡ 0
    → op_tail d op ≡ some tail
    → marks tail ≡ 1
unfolding op_tail marks
op_tail-marks d op tail h e = ground (arith, marks-append d.like_operator (codes " ?"))

marks-join_sql :
    (op left right : Text)
    → marks op ≡ 0
    → marks (join_sql op left right) ≡ marks left + marks right
unfolding marks
marks-join_sql op left right h =
    let tail = b')' ∷ b' ' ∷ (op ++ (b' ' ∷ b'(' ∷ (right ++ (b')' ∷ [])))) in
    omega (
      arith,
      marks-append left tail,
      marks-append op (b' ' ∷ b'(' ∷ (right ++ (b')' ∷ []))),
      marks-append right (b')' ∷ []),
      h,
    )

module _ {A : Type 0} (parse_float : Text → Option A) (d : Dialect) where
  cond_with-IsBalanced :
      (q : Text) (arg : Arg A) (t : Option Text)
      → marks q ≡ 0
      → ((tail : Text) → t ≡ some tail → marks tail ≡ 1)
      → WhenSome IsBalanced (cond_with q arg t)
  cond_with-IsBalanced q arg none h k = tt
  cond_with-IsBalanced q arg (some tail) h k = omega (arith, marks-append q tail, k tail refl)

operator_word-marks : (op : LogicalOp) → marks (operator_word op) ≡ 0
unfolding marks
operator_word-marks op = ground arith

join_conds-IsBalanced :
    {A : Type 0} (op : LogicalOp) (l r : Option (DbCond A))
    → WhenSome IsBalanced l
    → WhenSome IsBalanced r
    → WhenSome IsBalanced (join_conds op l r)
join_conds-IsBalanced op none r h k = tt
join_conds-IsBalanced op (some l) none h k = tt
join_conds-IsBalanced op (some l) (some r) h k = omega (
  arith,
  marks-join_sql (operator_word op) l.sql r.sql (operator_word-marks op),
  length-append l.args r.args,
)

module _ {T A : Type 0} (parse_float : Text → Option A) (d : Dialect) where
  leaf-IsBalanced :
      (schema : Schema T A) (field : Text) (op : Op) (value : Text) (f : Option (FieldDef T A))
      → IsMarked d schema
      → schema field ≡ f
      → WhenSome IsBalanced (leaf_to_db_cond parse_float d f op value)
  unfolding leaf_to_db_cond
  leaf-IsBalanced schema field op value none m e = tt
  leaf-IsBalanced schema field op value (some def) m e =
      if_rule (WhenSome IsBalanced) (not (is_db_level def)) (λ _. tt) λ _. level def.sql_expr refl
    where
      expr :
          (e' : Op → Text → Option (Text × List (Arg A))) (r : Option (Text × List (Arg A)))
          → def.sql_expr ≡ some e'
          → e' op value ≡ r
          → WhenSome IsBalanced (expr_cond r)
      expr e' none h k = tt
      expr e' (some (sql, args)) h k = m.exprs field def e' op value sql args e h k

      level :
          (x : Option (Op → Text → Option (Text × List (Arg A))))
          → def.sql_expr ≡ x
          → WhenSome IsBalanced (db_level_cond parse_float d x def op value)
      level none h = rw column_cond_lem (
          cond_with-IsBalanced parse_float d (d.quote_ident def.column)
            (op_arg parse_float d op value def.typ) (op_tail d op) (m.columns field def e)
            (λ tail k. op_tail-marks d op tail m.like k))
      level (some e') h = expr e' (e' op value) h refl

  node_to_db_cond-WhenSome :
      (schema : Schema T A) (n : Node)
      → IsMarked d schema
      → WhenSome IsBalanced (node_to_db_cond parse_float d schema n)
  unfolding node_to_db_cond
  node_to_db_cond-WhenSome schema (comparison field op value) m =
      leaf-IsBalanced schema field op value (schema field) m refl
  node_to_db_cond-WhenSome schema (logical op l r) m =
      join_conds-IsBalanced op (node_to_db_cond parse_float d schema l)
        (node_to_db_cond parse_float d schema r) (node_to_db_cond-WhenSome schema l m)
        (node_to_db_cond-WhenSome schema r m)

  -- A tree that is turned into one condition gives as many arguments as its SQL text has
  -- placeholders, if that is so of the schema's SQL expressions and neither the quoted columns nor
  -- the LIKE operator hold a question mark. So `append(left.args, right.args...)` keeps the order.
  pub node_to_db_cond-IsBalanced :
      (schema : Schema T A) (n : Node) (c : DbCond A)
      → IsMarked d schema
      → node_to_db_cond parse_float d schema n ≡ some c
      → marks c.sql ≡ length c.args
  node_to_db_cond-IsBalanced schema n c m e = rw e at (node_to_db_cond-WhenSome schema n m)
