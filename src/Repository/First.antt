-- ===== src/Repository/First.antt =====
-- app/repositories/database_repository.go: what a repository finds with the option of a filter.
use goth_scaffold.Prelude.{
  ◌≡◌, sym, ap, ◌∙◌, Text, if◌then◌else◌, List, [], ◌∷◌, keep, Option, none, some, ok, ◌>>=◌,
  bind-eq-ok, ok-injective, arith,
}
use mathlib.Core.List.{Perm}
use goth_scaffold.Dialect.{Dialect}
use goth_scaffold.Queryfilter.Unicode.{Unicode}
use goth_scaffold.Queryfilter.Parser.{parse_filter}
use goth_scaffold.Queryfilter.Parser.Words.{parse_filter-HasWords}
use goth_scaffold.Queryfilter.Syntax.{Node}
use goth_scaffold.Queryfilter.Sort.{SortField}
use goth_scaffold.Queryfilter.Schema.{Schema, validate_node, validate_sorts}
use goth_scaffold.Queryfilter.Conditions.{Gorm}
use goth_scaffold.Queryfilter.Conditions.Marks.{IsMarked}
use goth_scaffold.Queryfilter.Memory.{
  slice_stable, compare_items, has_mem_filter, eval_node, has_mem_tree, eval_tree,
  build_in_memory_fn, QueryOption, call_or_keep, apply_gorm, apply_filter, to_option,
}
use goth_scaffold.Queryfilter.Semantics.{SqlMeaning, Splits, denotes}
use goth_scaffold.Queryfilter.Semantics.Find.{Rows, no_mem_tree, find_exact}
use goth_scaffold.Repository.{
  Reads, apply_gorms, apply_filters, first_of, head_of, first_where, find_where,
}

module _ {T A : Type 0} (schema : Schema T A) where
  -- The in-memory pass on one row
  pass-single :
      (n : Node) (sorts : List SortField) (x : T)
      → call_or_keep (build_in_memory_fn (some n) sorts schema) (x ∷ [])
        ≡ (if eval_tree schema n x then x ∷ [] else [])
  unfolding build_in_memory_fn has_mem_filter eval_node slice_stable
      goth_scaffold.Queryfilter.Memory.insert_stable
  pass-single n sorts x = ground (arith, no_mem_tree schema n x)

module _ {A E T K : Type 0} (p : Text → Option A) (d : Dialect) (g : Gorm A)
    (r : Reads g.DB E T K) where
  -- With the option that `ToOption` makes of a filter, `FirstWhere` looks at one row only: where the
  -- query's first row is `x`, the result is `x` if it passes the filter's in-memory part, and no row
  -- if it does not, whatever rows come behind it.
  pub first_where-to_option :
      (schema : Schema T A) (n : Node) (sorts : List SortField) (o : QueryOption g.DB T)
      (build : g.DB → g.DB) (db : g.DB) (x : T)
      → to_option p d g (some n) sorts schema ≡ ok o
      → r.first (apply_gorm o (build db)) ≡ ok (some x)
      → first_where r build (o ∷ []) db ≡ ok (if eval_tree schema n x then some x else none)
  unfolding to_option first_where first_of apply_filters apply_gorms
  first_where-to_option schema n sorts o build db x e f =
      let (checked, _, rest) = bind-eq-ok (validate_node p schema (some n)) _ e in
      let (checked', _, made) = bind-eq-ok (validate_sorts schema sorts) _ rest in
      let pass : o.filter_fn ≡ build_in_memory_fn (some n) sorts schema =
        ap (λ (o' : QueryOption g.DB T). o'.filter_fn) (sym (ok-injective made)) in
      let single : apply_filter o (x ∷ []) ≡ (if eval_tree schema n x then x ∷ [] else []) =
        ap (λ h. call_or_keep h (x ∷ [])) pass ∙ pass-single schema n sorts x in
      ap (λ t. t >>= (λ entity. ok (first_of (o ∷ []) entity))) f
      ∙ ap (λ l. ok (head_of l)) single
      ∙ ground arith

module _ {A E T K : Type 0} (u : Unicode) (p : Text → Option A) (d : Dialect) (sql : SqlMeaning T A)
    (g : Gorm A) (q : Rows sql g) (r : Reads g.DB E T K) where
  -- From the text of a request to the rows: where the schema and the dialect put no question mark
  -- where it would count as a placeholder, the text is parsed to a filter that splits,
  -- `ToOption` accepts it with the sort fields, and the query of `FindWhere` succeeds with the rows
  -- that the scope selects, the result is the rows of the caller's query that satisfy the filter,
  -- each as often as it was there, in some order.
  pub find_where-parse_filter :
      (schema : Schema T A) (text : Text) (n : Node) (sorts : List SortField)
      (o : QueryOption g.DB T) (build : g.DB → g.DB) (db : g.DB)
      → parse_filter u text ≡ ok (some n)
      → to_option p d g (some n) sorts schema ≡ ok o
      → IsMarked d schema
      → Splits p d schema n
      → r.find (apply_gorm o (build db)) ≡ ok (q.rows (apply_gorm o (build db)))
      → (xs : List T) × (find_where r build (o ∷ []) db ≡ ok xs)
        × Perm xs (keep (denotes p d sql schema n) (q.rows (build db)))
  unfolding find_where apply_gorms apply_filters
  find_where-parse_filter schema text n sorts o build db parsed e m s f = (
    apply_filter o (q.rows (apply_gorm o (build db))),
    ap (λ t. t >>= (λ items. ok (apply_filters (o ∷ []) items))) f,
    find_exact d sql g q p schema n sorts o (build db) e m (parse_filter-HasWords u text n parsed)
        s,
  )
