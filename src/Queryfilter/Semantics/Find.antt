-- ===== src/Queryfilter/Semantics/Find.antt =====
-- A query with the option of `ToOption`: what the database selects, and then the in-memory pass.
use mathlib.Core.List.{Perm, filter_map}
use mathlib.Core.List.Perm
use goth_scaffold.Prelude.{
  ◌≡◌, refl, sym, ap, subst, ◌∙◌, Text, Bool, true, false, not, ◌&&◌, if◌then◌else◌, List, [], ◌∷◌,
  keep, keep-keep, if_rule, ok-injective, Option, none, some, inl, inr, arith, ok, Bool-cases,
  bind-eq-ok, fun_ext,
}
use goth_scaffold.Dialect.{Dialect}
use goth_scaffold.Queryfilter.Syntax.{Node, comparison, logical}
use goth_scaffold.Queryfilter.Sort.{SortField}
use goth_scaffold.Queryfilter.Schema.{Arg, Schema, validate_node, validate_sorts}
use goth_scaffold.Queryfilter.Conditions.{
  DbCond, Gorm, SortDir, collect_tree, collect_db_sorts, has_mem_sort, apply_conds, apply_sorts,
  build_gorm_scope, scope_of,
}
use goth_scaffold.Queryfilter.Conditions.Marks.{IsMarked}
use goth_scaffold.Queryfilter.Memory.{
  slice_stable, compare_items, has_mem_tree, eval_leaf, eval_tree, build_in_memory_fn, QueryOption,
  call_or_keep, apply_gorm, apply_filter, to_option,
}
use goth_scaffold.Queryfilter.Memory.Sorting.{slice_stable-perm}
use goth_scaffold.Queryfilter.Semantics.{SqlMeaning, HasWords, denotes, all_hold, Splits}
use goth_scaffold.Queryfilter.Semantics.Split.{split_exact}

-- The rows that a GORM query selects: `Where` keeps the rows for which its condition holds, and
-- `Order` only reorders.
pub record Rows {T A : Type 0} (sql : SqlMeaning T A) (g : Gorm A) : Type 0 where
  pub rows : g.DB → List T
  pub rows-where :
      (db : g.DB) (s : Text) (args : List (Arg A))
      → rows (g.where_cond db s args) ≡ keep (sql.holds s args) (rows db)
  pub rows-order : (db : g.DB) (s : Text) → Perm (rows (g.order db s)) (rows db)

module _ {T : Type 0} where
  as_option : (T → Bool) → T → Option T
  as_option p x = if p x then some x else none

  keep-filter_map : (p : T → Bool) (xs : List T) → keep p xs ≡ filter_map (as_option p) xs
  unfolding as_option filter_map
  keep-filter_map p [] = refl
  keep-filter_map p (x ∷ xs) = ground (arith, keep-filter_map p xs)

  keep-perm : (p : T → Bool) {xs ys : List T} → Perm xs ys → Perm (keep p xs) (keep p ys)
  keep-perm p {xs} {ys} h =
      rw (keep-filter_map p xs, keep-filter_map p ys) (Perm.filter_map (as_option p) h)

  keep_all : (xs : List T) → keep (λ x. true) xs ≡ xs
  keep_all [] = refl
  keep_all (x ∷ xs) = ap (λ t. x ∷ t) (keep_all xs)

module _ {T A : Type 0} (schema : Schema T A) where
  pub no_mem_tree : (n : Node) (x : T) → has_mem_tree schema n ≡ false → eval_tree schema n x ≡ true
  unfolding has_mem_tree eval_tree eval_leaf
  no_mem_tree (comparison field op value) x h = ground arith
  no_mem_tree (logical op l r) x h = ground (arith, no_mem_tree l x, no_mem_tree r x)

  needed-perm :
      (n : Node) (xs : List T)
      → Perm
          (if has_mem_tree schema n then keep (eval_tree schema n) xs else xs)
          (keep (eval_tree schema n) xs)
  needed-perm n xs = elim (Bool-cases (has_mem_tree schema n)) [
    | inl h ↦ rw h (Perm.refl (keep (eval_tree schema n) xs))
    | inr h ↦ rw h (rw (fun_ext (λ x. no_mem_tree n x h)) (rw keep_all (Perm.refl xs)))
  ]

  sorted-perm :
      (b : Bool) (sorts : List SortField) (xs : List T)
      → Perm (if b then slice_stable (compare_items sorts schema) xs else xs) xs
  sorted-perm true sorts xs = slice_stable-perm (compare_items sorts schema) xs
  sorted-perm false sorts xs = Perm.refl xs

  -- The in-memory pass keeps the rows that the tree lets pass, in some order.
  build_in_memory_fn-perm :
      (n : Node) (sorts : List SortField) (xs : List T)
      → Perm
          (call_or_keep (build_in_memory_fn (some n) sorts schema) xs)
          (keep (eval_tree schema n) xs)
  unfolding build_in_memory_fn
  build_in_memory_fn-perm n sorts xs =
      let need_filter = has_mem_tree schema n in
      let need_sort = has_mem_sort sorts schema in
      if_rule (λ f. Perm (call_or_keep f xs) (keep (eval_tree schema n) xs))
        (not need_filter && not need_sort)
        (λ idle. rw (fun_ext (λ x. no_mem_tree n x (ground arith))) (rw keep_all (Perm.refl xs)))
        (λ _. Perm.trans (sorted-perm need_sort sorts _) (needed-perm n xs))

module _ {T A : Type 0} (d : Dialect) (sql : SqlMeaning T A) (g : Gorm A) (r : Rows sql g) where
  rows-apply_conds :
      (p : Text → Option A) (cs : List (DbCond A)) (db : g.DB)
      → r.rows (apply_conds d g cs db) ≡ keep (all_hold p d sql cs) (r.rows db)
  unfolding apply_conds
  rows-apply_conds p [] db = sym (keep_all (r.rows db))
  rows-apply_conds p (c ∷ cs) db =
      rows-apply_conds p cs (g.where_cond db c.sql c.args)
      ∙ ap (keep (all_hold p d sql cs)) (r.rows-where db c.sql c.args)
      ∙ keep-keep (all_hold p d sql cs) (sql.holds c.sql c.args) (r.rows db)

  rows-apply_sorts :
      (ss : List SortDir) (db : g.DB) → Perm (r.rows (apply_sorts d g ss db)) (r.rows db)
  unfolding apply_sorts
  rows-apply_sorts [] db = Perm.refl (r.rows db)
  rows-apply_sorts (s ∷ ss) db = Perm.trans (rows-apply_sorts ss _) (r.rows-order db _)

  scope_of-rows :
      (p : Text → Option A) (cs : List (DbCond A)) (ss : List SortDir) (db : g.DB)
      → Perm
          (r.rows (call_or_keep (scope_of d g cs ss) db))
          (keep (all_hold p d sql cs) (r.rows db))
  scope_of-rows p [] [] db = rw keep_all (Perm.refl (r.rows db))
  scope_of-rows p [] (s ∷ ss) db =
      subst (λ t. Perm (r.rows (apply_sorts d g (s ∷ ss) (apply_conds d g [] db))) t)
        (rows-apply_conds p [] db) (rows-apply_sorts (s ∷ ss) (apply_conds d g [] db))
  scope_of-rows p (c ∷ cs) ss db =
      subst (λ t. Perm (r.rows (apply_sorts d g ss (apply_conds d g (c ∷ cs) db))) t)
        (rows-apply_conds p (c ∷ cs) db) (rows-apply_sorts ss (apply_conds d g (c ∷ cs) db))

  passed : (p : Text → Option A) (schema : Schema T A) (n : Node) (db : g.DB) → List T
  passed p schema n db = keep (all_hold p d sql (collect_tree p d schema n)) (r.rows db)

  scope-perm :
      (p : Text → Option A) (schema : Schema T A) (n : Node) (sorts : List SortField) (db : g.DB)
      → Perm
          (r.rows (call_or_keep (build_gorm_scope d g p (some n) sorts schema) db))
          (passed p schema n db)
  unfolding build_gorm_scope passed
  scope-perm p schema n sorts db =
      scope_of-rows p (collect_tree p d schema n) (collect_db_sorts sorts schema) db

  keep-passed :
      (p : Text → Option A) (schema : Schema T A) (n : Node) (db : g.DB)
      → IsMarked d schema
      → HasWords n
      → Splits p d schema n
      → keep (eval_tree schema n) (passed p schema n db)
        ≡ keep (denotes p d sql schema n) (r.rows db)
  unfolding passed
  keep-passed p schema n db m w s =
      keep-keep (eval_tree schema n) (all_hold p d sql (collect_tree p d schema n)) (r.rows db)
      ∙ ap (λ f. keep f (r.rows db)) (fun_ext (λ x. split_exact p d sql schema n x m w s))

  option_exact :
      (p : Text → Option A) (schema : Schema T A) (n : Node) (sorts : List SortField) (db : g.DB)
      → IsMarked d schema
      → HasWords n
      → Splits p d schema n
      → Perm
          (call_or_keep
            (build_in_memory_fn (some n) sorts schema)
            (r.rows (call_or_keep (build_gorm_scope d g p (some n) sorts schema) db)))
          (keep (denotes p d sql schema n) (r.rows db))
  option_exact p schema n sorts db m w s =
      let found = r.rows (call_or_keep (build_gorm_scope d g p (some n) sorts schema) db) in
      rw (← keep-passed p schema n db m w s) (
        Perm.trans (build_in_memory_fn-perm schema n sorts found)
          (keep-perm (eval_tree schema n) (scope-perm p schema n sorts db)))

  -- Where `ToOption` accepts a filter that splits, with any sort fields: the rows that the database
  -- selects through the option's scope, after the option's in-memory pass, are the rows that satisfy
  -- the filter, each as often as it was there, in some order.
  pub find_exact :
      (p : Text → Option A) (schema : Schema T A) (n : Node) (sorts : List SortField)
      (o : QueryOption g.DB T) (db : g.DB)
      → to_option p d g (some n) sorts schema ≡ ok o
      → IsMarked d schema
      → HasWords n
      → Splits p d schema n
      → Perm
          (apply_filter o (r.rows (apply_gorm o db)))
          (keep (denotes p d sql schema n) (r.rows db))
  unfolding to_option
  find_exact p schema n sorts o db e m w s =
      let (checked, _, rest) = bind-eq-ok (validate_node p schema (some n)) _ e in
      let (checked', _, made) = bind-eq-ok (validate_sorts schema sorts) _ rest in
      subst
        (λ (o' : QueryOption g.DB T).
          Perm (apply_filter o' (r.rows (apply_gorm o' db)))
            (keep (denotes p d sql schema n) (r.rows db)))
        (ok-injective made) (option_exact p schema n sorts db m w s)
