-- ===== src/Queryfilter/Semantics/Split.antt =====
-- The database's conditions and the in-memory pass together, against what the filter means.
use goth_scaffold.Prelude.{
  ◌≡◌, refl, sym, ap, ap₂, ◌∙◌, Text, Bool, true, false, ◌&&◌, ◌||◌, [], all-append, text_eq,
  text_eq_refl, Option, none, some, inl, inr, ◌⊎◌, arith, Bool-cases, Option-cases,
}
use goth_scaffold.Dialect.{Dialect}
use goth_scaffold.Queryfilter.Syntax.{Op, LogicalOp, logical_and, Node, comparison, logical}
use goth_scaffold.Queryfilter.Schema.{FieldDef, Schema, is_db_level}
use goth_scaffold.Queryfilter.Conditions.{
  DbCond, join_conds, single_cond, db_level_cond, leaf_to_db_cond, node_to_db_cond, collect_tree,
}
use goth_scaffold.Queryfilter.Conditions.Marks.{IsMarked}
use goth_scaffold.Queryfilter.Memory.{eval_leaf, eval_tree, has_filter_fn}
use goth_scaffold.Queryfilter.Semantics.{
  SqlMeaning, HasWords, cond_holds, leaf_denotes, denotes, all_hold, AllMemory, Splits, stored,
  held, both,
}
use goth_scaffold.Queryfilter.Semantics.Stored.{
  eval_tree_stored, node-holds, collect_tree_stored, collect_leaf, collect_and, collect_or,
  denotes_and, denotes_or,
}

join_conds-none :
    {A : Type 0} (op : LogicalOp) (r : Option (DbCond A)) → join_conds op none r ≡ none
join_conds-none op none = refl
join_conds-none op (some c) = refl

module _ {T A : Type 0} (parse_float : Text → Option A) (d : Dialect) where
  leaf_held :
      (f : Option (FieldDef T A)) (op : Op) (value : Text)
      → has_filter_fn f ≡ true
      → leaf_to_db_cond parse_float d f op value ≡ none
  unfolding leaf_to_db_cond
  leaf_held none op value h = cc
  leaf_held (some def) op value h = ground arith

  node_held :
      (schema : Schema T A) (n : Node)
      → AllMemory schema n
      → node_to_db_cond parse_float d schema n ≡ none
  unfolding node_to_db_cond
  node_held schema (comparison field op value) h = leaf_held (schema field) op value h
  node_held schema (logical op l r) h =
      rw (node_held schema l h.0) (join_conds-none op (node_to_db_cond parse_float d schema r))

  collect_held :
      (schema : Schema T A) (n : Node)
      → AllMemory schema n
      → collect_tree parse_float d schema n ≡ []
  unfolding collect_tree
  collect_held schema (comparison field op value) h = rw (leaf_held (schema field) op value h)
  collect_held schema (logical op l r) h = elim (Bool-cases (text_eq op logical_and)) [
    | inl conj ↦ rw conj (rw (collect_held schema l h.0, collect_held schema r h.1))
    | inr disj ↦
        rw disj (ap single_cond (unfold node_to_db_cond in node_held schema (logical op l r) h))
  ]

module _ {T A : Type 0} (schema : Schema T A) where
  eval_and :
      (op : LogicalOp) (l r : Node) (x : T)
      → text_eq op logical_and ≡ true
      → eval_tree schema (logical op l r) x ≡ (eval_tree schema l x && eval_tree schema r x)
  unfolding eval_tree
  eval_and op l r x h = rw h

  pub eval_or :
      (op : LogicalOp) (l r : Node) (x : T)
      → text_eq op logical_and ≡ false
      → eval_tree schema (logical op l r) x ≡ (eval_tree schema l x || eval_tree schema r x)
  unfolding eval_tree
  eval_or op l r x h = rw h

and_parts : (a b : Bool) → (a && b) ≡ true → (a ≡ true) × (b ≡ true)
and_parts a b h = ground arith

or_parts : (a b : Bool) → (a || b) ≡ true → (a ≡ true) ⊎ (b ≡ true)
or_parts a b h = ground arith

pub or_true : (a : Bool) → (a || true) ≡ true
or_true a = ground arith

module _ {T A : Type 0} (parse_float : Text → Option A) (d : Dialect) (sql : SqlMeaning T A) where
  cond_complete :
      (c : Option (DbCond A)) (x : T)
      → cond_holds parse_float d sql c x ≡ true
      → all_hold parse_float d sql (single_cond c) x ≡ true
  cond_complete none x h = refl
  cond_complete (some c) x h = rw h

  leaf_denotes_held :
      (f : Option (FieldDef T A)) (op : Op) (value : Text) (x : T)
      → has_filter_fn f ≡ true
      → leaf_denotes parse_float d sql f op value x ≡ eval_leaf f x op value
  unfolding leaf_denotes
  leaf_denotes_held none op value x h = cc
  leaf_denotes_held (some def) op value x h = ground arith

  denotes_held :
      (schema : Schema T A) (n : Node) (x : T)
      → AllMemory schema n
      → denotes parse_float d sql schema n x ≡ eval_tree schema n x
  unfolding denotes eval_tree
  denotes_held schema (comparison field op value) x h =
      leaf_denotes_held (schema field) op value x h
  denotes_held schema (logical op l r) x h =
      rw (denotes_held schema l x h.0, denotes_held schema r x h.1)

  leaf_complete :
      (f : Option (FieldDef T A)) (op : Op) (value : Text) (x : T)
      → leaf_denotes parse_float d sql f op value x ≡ true
      → (all_hold parse_float d sql (single_cond (leaf_to_db_cond parse_float d f op value)) x
          ≡ true)
        × (eval_leaf f x op value ≡ true)
  unfolding leaf_denotes eval_leaf leaf_to_db_cond
  leaf_complete none op value x h = (refl, refl)
  leaf_complete (some def) op value x h = elim (Bool-cases (is_db_level def)) [
    | inl level ↦ (
      rw level
          (cond_complete (db_level_cond parse_float d def.sql_expr def op value) x (rw level at h)),
      ground arith,
    )
    | inr no_level ↦ (rw no_level, rw no_level at h)
  ]

  and_swap : (a b c e : Bool) → ((a && b) && (c && e)) ≡ ((a && c) && (b && e))
  and_swap a b c e = ground arith

  -- On a filter that is a conjunction of parts which the database takes whole or memory takes whole,
  -- a row passes the conditions that are sent to the database and the in-memory pass exactly if it
  -- satisfies the filter.
  pub split_exact :
      (schema : Schema T A) (n : Node) (x : T)
      → IsMarked d schema
      → HasWords n
      → Splits parse_float d schema n
      → (all_hold parse_float d sql (collect_tree parse_float d schema n) x && eval_tree schema n x)
        ≡ denotes parse_float d sql schema n x
  split_exact schema n x m w (stored h) =
      elim (Option-cases (node_to_db_cond parse_float d schema n)) [
        | inl e ↦ cc (rw e at h)
        | inr (c, e) ↦
            rw
              (
                collect_tree_stored parse_float d sql schema n c x m w e,
                eval_tree_stored parse_float d schema n c x e,
              )
              (ground arith)
      ]
  split_exact schema n x m w (held h) =
      rw (collect_held parse_float d schema n h) (sym (denotes_held schema n x h))
  split_exact schema n x m w (both {l} {r} a b) =
      let dn = λ (y : Node). denotes parse_float d sql schema y x in
      let cond = λ (y : Node). all_hold parse_float d sql (collect_tree parse_float d schema y) x in
      let ev = λ (y : Node). eval_tree schema y x in
      ap₂ ◌&&◌
        (ap (λ cs. all_hold parse_float d sql cs x)
            (collect_and parse_float d schema logical_and l r (text_eq_refl logical_and))
          ∙ all-append (λ c. sql.holds c.sql c.args x) (collect_tree parse_float d schema l)
              (collect_tree parse_float d schema r))
        (eval_and schema logical_and l r x (text_eq_refl logical_and))
      ∙ and_swap (cond l) (cond r) (ev l) (ev r)
      ∙ ap₂ ◌&&◌ (split_exact schema l x m w.1 a) (split_exact schema r x m w.2 b)
      ∙ sym (denotes_and parse_float d sql schema logical_and l r x (text_eq_refl logical_and))

  node_complete :
      (schema : Schema T A) (n : Node) (x : T)
      → IsMarked d schema
      → HasWords n
      → denotes parse_float d sql schema n x ≡ true
      → (c : Option (DbCond A)) → node_to_db_cond parse_float d schema n ≡ c
      → all_hold parse_float d sql (single_cond c) x ≡ true
  node_complete schema n x m w h none e = refl
  node_complete schema n x m w h (some c) e =
      cond_complete (some c) x (node-holds parse_float d sql schema n c x m w e ∙ h)

  -- On every filter, whether it splits or not, a row that satisfies it passes both: the database and
  -- the in-memory pass never lose a row.
  pub split_complete :
      (schema : Schema T A) (n : Node) (x : T)
      → IsMarked d schema
      → HasWords n
      → denotes parse_float d sql schema n x ≡ true
      → (all_hold parse_float d sql (collect_tree parse_float d schema n) x ≡ true)
        × (eval_tree schema n x ≡ true)
  split_complete schema (comparison field op value) x m w h =
      let h' : leaf_denotes parse_float d sql (schema field) op value x ≡ true =
        unfold denotes in h in
      let r = leaf_complete (schema field) op value x h' in
      (rw collect_leaf r.0, unfold eval_tree in r.1)
  split_complete schema (logical op l r) x m w h = elim (Bool-cases (text_eq op logical_and)) [
    | inl conj ↦
        let parts =
          and_parts (denotes parse_float d sql schema l x) (denotes parse_float d sql schema r x)
            (rw (denotes_and parse_float d sql schema op l r x conj) at h) in
        let (cl, el) = split_complete schema l x m w.1 parts.0 in
        let (cr, er) = split_complete schema r x m w.2 parts.1 in
        (
          rw (collect_and parse_float d schema op l r conj) (
              all-append (λ c. sql.holds c.sql c.args x) (collect_tree parse_float d schema l)
                (collect_tree parse_float d schema r)
              ∙ ap₂ ◌&&◌ cl cr),
          eval_and schema op l r x conj ∙ ap₂ ◌&&◌ el er,
        )
    | inr disj ↦ (
      rw (collect_or parse_float d schema op l r disj) (
          node_complete schema (logical op l r) x m w h
            (node_to_db_cond parse_float d schema (logical op l r)) refl),
      elim (or_parts (denotes parse_float d sql schema l x) (denotes parse_float d sql schema r x)
          (rw (denotes_or parse_float d sql schema op l r x disj) at h)) [
            | inl hl ↦
                eval_or schema op l r x disj
                ∙ ap (λ b. b || eval_tree schema r x) (split_complete schema l x m w.1 hl).1
            | inr hr ↦
                eval_or schema op l r x disj
                ∙ ap (λ b. eval_tree schema l x || b) (split_complete schema r x m w.2 hr).1
                ∙ or_true (eval_tree schema l x)
          ],
    )
  ]
