-- ===== src/Queryfilter/Semantics/Stored.antt =====
-- Trees that the database takes whole.
use goth_scaffold.Prelude.{
  ◌≡◌, refl, sym, ap₂, ◌∙◌, Text, Bool, true, false, ◌&&◌, ◌||◌, if◌then◌else◌, ◌++◌, all-append,
  text_eq, Option, none, some, inl, inr, ◌⊎◌, arith, Bool-cases,
}
use goth_scaffold.Dialect.{Dialect}
use goth_scaffold.Queryfilter.Syntax.{
  Op, LogicalOp, logical_and, logical_or, Node, comparison, logical,
}
use goth_scaffold.Queryfilter.Schema.{FieldDef, Schema, is_db_level}
use goth_scaffold.Queryfilter.Conditions.{
  DbCond, join_sql, operator_word, join_conds, single_cond, leaf_to_db_cond, node_to_db_cond,
  collect_tree,
}
use goth_scaffold.Queryfilter.Conditions.Marks.{IsBalanced, IsMarked, node_to_db_cond-IsBalanced}
use goth_scaffold.Queryfilter.Memory.{eval_leaf, eval_tree}
use goth_scaffold.Queryfilter.Semantics.{SqlMeaning, HasWords, leaf_denotes, denotes, all_hold}

join_conds-eq-some :
    {A : Type 0} (op : LogicalOp) (l r : Option (DbCond A)) (c : DbCond A)
    → join_conds op l r ≡ some c
    → (a : DbCond A) × (b : DbCond A) × (l ≡ some a)
      × (r ≡ some b)
      × (c.sql ≡ join_sql (operator_word op) a.sql b.sql)
      × (c.args ≡ a.args ++ b.args)
join_conds-eq-some op none r c e = cc
join_conds-eq-some op (some a) none c e = cc
join_conds-eq-some op (some a) (some b) c e = (a, b, refl, refl, ground arith, ground arith)

module _ {T A : Type 0} (parse_float : Text → Option A) (d : Dialect) where
  leaf-is_db_level :
      (def : FieldDef T A) (op : Op) (value : Text) (c : DbCond A)
      → leaf_to_db_cond parse_float d (some def) op value ≡ some c
      → is_db_level def ≡ true
  unfolding leaf_to_db_cond
  leaf-is_db_level def op value c e = elim (Bool-cases (is_db_level def)) [
    | inl h ↦ h
    | inr h ↦ cc (rw h at e)
  ]

  eval_leaf_stored :
      (f : Option (FieldDef T A)) (op : Op) (value : Text) (c : DbCond A) (x : T)
      → leaf_to_db_cond parse_float d f op value ≡ some c
      → eval_leaf f x op value ≡ true
  unfolding eval_leaf
  eval_leaf_stored none op value c x e = refl
  eval_leaf_stored (some def) op value c x e =
      let h = leaf-is_db_level def op value c e in ground arith

  -- Memory lets every row pass a tree that the database takes whole.
  pub eval_tree_stored :
      (schema : Schema T A) (n : Node) (c : DbCond A) (x : T)
      → node_to_db_cond parse_float d schema n ≡ some c
      → eval_tree schema n x ≡ true
  unfolding eval_tree node_to_db_cond
  eval_tree_stored schema (comparison field op value) c x e =
      eval_leaf_stored (schema field) op value c x e
  eval_tree_stored schema (logical op l r) c x e =
      let (a, b, el, er, es, ea) =
        join_conds-eq-some op (node_to_db_cond parse_float d schema l)
          (node_to_db_cond parse_float d schema r) c e in
      let hl = eval_tree_stored schema l a x el in
      let hr = eval_tree_stored schema r b x er in rw (hl, hr) (ground arith)

module _ {T A : Type 0} (parse_float : Text → Option A) (d : Dialect) (schema : Schema T A) where
  -- The clauses of `collect_tree`.
  pub collect_leaf :
      (field : Text) (op : Op) (value : Text)
      → collect_tree parse_float d schema (comparison field op value)
        ≡ single_cond (leaf_to_db_cond parse_float d (schema field) op value)
  unfolding collect_tree
  collect_leaf field op value = refl

  pub collect_and :
      (op : LogicalOp) (l r : Node)
      → text_eq op logical_and ≡ true
      → collect_tree parse_float d schema (logical op l r)
        ≡ collect_tree parse_float d schema l ++ collect_tree parse_float d schema r
  unfolding collect_tree
  collect_and op l r h = rw h

  pub collect_or :
      (op : LogicalOp) (l r : Node)
      → text_eq op logical_and ≡ false
      → collect_tree parse_float d schema (logical op l r)
        ≡ single_cond (node_to_db_cond parse_float d schema (logical op l r))
  unfolding collect_tree
  collect_or op l r h = rw h

module _ {T A : Type 0} (parse_float : Text → Option A) (d : Dialect) (sql : SqlMeaning T A) where
  leaf_denotes_stored :
      (f : Option (FieldDef T A)) (op : Op) (value : Text) (c : DbCond A) (x : T)
      → leaf_to_db_cond parse_float d f op value ≡ some c
      → leaf_denotes parse_float d sql f op value x ≡ sql.holds c.sql c.args x
  unfolding leaf_denotes
  leaf_denotes_stored none op value c x e = unfold leaf_to_db_cond in cc
  leaf_denotes_stored (some def) op value c x e =
      rw (leaf-is_db_level parse_float d def op value c e) (rw e)

  holds_join :
      (op : LogicalOp) (a b : DbCond A) (x : T)
      → (op ≡ logical_and) ⊎ (op ≡ logical_or)
      → IsBalanced a
      → IsBalanced b
      → sql.holds (join_sql (operator_word op) a.sql b.sql) (a.args ++ b.args) x ≡ (
          if text_eq op logical_and
          then sql.holds a.sql a.args x && sql.holds b.sql b.args x
          else sql.holds a.sql a.args x || sql.holds b.sql b.args x)
  unfolding text_eq
  holds_join op a b x (inl e) ha hb = rw e (sql.holds-and a b x ha hb)
  holds_join op a b x (inr e) ha hb = rw e (sql.holds-or a b x ha hb)

  -- The one condition of a tree selects the rows that the tree means.
  pub node-holds :
      (schema : Schema T A) (n : Node) (c : DbCond A) (x : T)
      → IsMarked d schema
      → HasWords n
      → node_to_db_cond parse_float d schema n ≡ some c
      → sql.holds c.sql c.args x ≡ denotes parse_float d sql schema n x
  unfolding denotes node_to_db_cond
  node-holds schema (comparison field op value) c x m w e =
      sym (leaf_denotes_stored (schema field) op value c x e)
  node-holds schema (logical op l r) c x m w e =
      let (a, b, el, er, es, ea) =
        join_conds-eq-some op (node_to_db_cond parse_float d schema l)
          (node_to_db_cond parse_float d schema r) c e in
      let joined =
        holds_join op a b x w.0 (node_to_db_cond-IsBalanced parse_float d schema l a m el)
          (node_to_db_cond-IsBalanced parse_float d schema r b m er) in
      let hl = node-holds schema l a x m w.1 el in
      let hr = node-holds schema r b x m w.2 er in rw (es, ea) (rw (← hl, ← hr) joined)

  pub denotes_and :
      (schema : Schema T A) (op : LogicalOp) (l r : Node) (x : T)
      → text_eq op logical_and ≡ true
      → denotes parse_float d sql schema (logical op l r) x
        ≡ (denotes parse_float d sql schema l x && denotes parse_float d sql schema r x)
  unfolding denotes
  denotes_and schema op l r x h = rw h

  pub denotes_or :
      (schema : Schema T A) (op : LogicalOp) (l r : Node) (x : T)
      → text_eq op logical_and ≡ false
      → denotes parse_float d sql schema (logical op l r) x
        ≡ (denotes parse_float d sql schema l x || denotes parse_float d sql schema r x)
  unfolding denotes
  denotes_or schema op l r x h = rw h

  and_true : (b : Bool) → (b && true) ≡ b
  and_true b = ground arith

  -- So do the conditions that are collected from it.
  pub collect_tree_stored :
      (schema : Schema T A) (n : Node) (c : DbCond A) (x : T)
      → IsMarked d schema
      → HasWords n
      → node_to_db_cond parse_float d schema n ≡ some c
      → all_hold parse_float d sql (collect_tree parse_float d schema n) x
        ≡ denotes parse_float d sql schema n x
  collect_tree_stored schema (comparison field op value) c x m w e =
      let h = node-holds schema (comparison field op value) c x m w e in
      let leaf : leaf_to_db_cond parse_float d (schema field) op value ≡ some c =
        unfold node_to_db_cond in e in
      rw collect_leaf (rw leaf (and_true (sql.holds c.sql c.args x) ∙ h))
  collect_tree_stored schema (logical op l r) c x m w e =
      let h = node-holds schema (logical op l r) c x m w e in
      let (a, b, el, er, es, ea) =
        join_conds-eq-some op (node_to_db_cond parse_float d schema l)
          (node_to_db_cond parse_float d schema r) c (unfold node_to_db_cond in e) in
      let hl = collect_tree_stored schema l a x m w.1 el in
      let hr = collect_tree_stored schema r b x m w.2 er in
      elim (Bool-cases (text_eq op logical_and)) [
        | inl conj ↦ rw (collect_and parse_float d schema op l r conj) (
            all-append (λ c'. sql.holds c'.sql c'.args x) (collect_tree parse_float d schema l)
              (collect_tree parse_float d schema r)
            ∙ ap₂ ◌&&◌ hl hr
            ∙ sym (denotes_and schema op l r x conj))
        | inr disj ↦
            rw (collect_or parse_float d schema op l r disj)
              (rw e (and_true (sql.holds c.sql c.args x) ∙ h))
      ]
