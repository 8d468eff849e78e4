-- ===== src/Tests/Conditions.antt =====
-- The theorems on conditions, on the validation and on the sort at fixed inputs.
use goth_scaffold.Prelude.{
  ℕ, ◌≡◌, ◌↔◌, refl, Text, codes, true, List, [], ◌∷◌, keep, map, length, none, some, inl, ok, pos,
}
use mathlib.Core.List.{Perm}
use goth_scaffold.Tests.Data.{
  no_float, items, mysql, items-IsMarked, items-HasFixedExprs, items-HasComparators,
}
use goth_scaffold.Dialect.{mysql_dialect}
use goth_scaffold.Queryfilter.Syntax.{Node, comparison, logical, op_eq, op_gt, logical_or}
use goth_scaffold.Queryfilter.Sort.{SortField}
use goth_scaffold.Queryfilter.Schema.{validate_tree, arg_int}
use goth_scaffold.Queryfilter.Schema.Laws.{AllAllowed, validate_tree_iff}
use goth_scaffold.Queryfilter.Conditions.{DbCond, node_to_db_cond, collect_tree}
use goth_scaffold.Queryfilter.Conditions.Marks.{marks, node_to_db_cond-IsBalanced}
use goth_scaffold.Queryfilter.Conditions.Injection.{leaves, trees, collect_tree-SameShape}
use goth_scaffold.Queryfilter.Memory.{eval_tree, slice_stable, compare_items}
use goth_scaffold.Queryfilter.Memory.Order.{Ordered, is_tied, sort_by_fields}
use goth_scaffold.Queryfilter.Semantics.Mixed.{mixed_or_is_dropped}

abbrev costs : Text → Node
costs value = comparison (codes "price") op_gt value

abbrev two_costs : Text → Node
two_costs value = logical logical_or (costs value) (costs (codes "3"))

-- The condition of a comparison and of a disjunction
abbrev cost_cond : DbCond ℕ
cost_cond = record { sql = codes "`price` > ?"; args = arg_int (pos 3) ∷ [] }

abbrev two_cond : DbCond ℕ
two_cond = record {
  sql = codes "(`price` > ?) OR (`price` > ?)";
  args = arg_int (pos 3) ∷ arg_int (pos 3) ∷ [];
}

cost_cond-made : node_to_db_cond no_float mysql items (costs (codes "3")) ≡ some cost_cond
unfolding items node_to_db_cond mysql_dialect
cost_cond-made = refl

two_cond-made : node_to_db_cond no_float mysql items (two_costs (codes "3")) ≡ some two_cond
unfolding items node_to_db_cond mysql_dialect
two_cond-made = refl

node_to_db_cond-IsBalanced_example : marks two_cond.sql ≡ length two_cond.args
node_to_db_cond-IsBalanced_example =
    node_to_db_cond-IsBalanced no_float mysql items (two_costs (codes "3")) two_cond items-IsMarked
      two_cond-made

collect_tree-SameShape_example :
    map (λ c. c.sql) (collect_tree no_float mysql items (two_costs (codes "1")))
    ≡ map (λ c. c.sql) (collect_tree no_float mysql items (two_costs (codes "2 OR 1=1")))
collect_tree-SameShape_example =
    collect_tree-SameShape no_float mysql items items-HasFixedExprs
      (trees (leaves (codes "1") (codes "2 OR 1=1")) (leaves (codes "3") (codes "3")))

validate_tree_iff_example :
    (validate_tree no_float items (two_costs (codes "3")) ≡ ok tt)
    ↔ AllAllowed no_float items (two_costs (codes "3"))
validate_tree_iff_example = validate_tree_iff no_float items (two_costs (codes "3"))

abbrev by_even : List SortField
by_even = record { field = codes "even"; desc = true } ∷ []

sort_by_fields_example :
    let sorted = slice_stable (compare_items by_even items) (3 ∷ 1 ∷ 2 ∷ []) in
    Perm sorted (3 ∷ 1 ∷ 2 ∷ [])
    × Ordered items by_even sorted
    × ((k : ℕ)
        → keep (is_tied items by_even k) sorted ≡ keep (is_tied items by_even k) (3 ∷ 1 ∷ 2 ∷ []))
sort_by_fields_example = sort_by_fields items items-HasComparators by_even (3 ∷ 1 ∷ 2 ∷ [])

abbrev mixed : Node
mixed = comparison (codes "even") op_eq (codes "1")

mixed-no_cond :
    node_to_db_cond no_float mysql items (logical logical_or (costs (codes "3")) mixed) ≡ none
unfolding items node_to_db_cond
mixed-no_cond = refl

mixed_or_is_dropped_example :
    (collect_tree no_float mysql items (logical logical_or (costs (codes "3")) mixed) ≡ [])
    × ((x : ℕ) → eval_tree items (logical logical_or (costs (codes "3")) mixed) x ≡ true)
mixed_or_is_dropped_example =
    mixed_or_is_dropped no_float mysql items (costs (codes "3")) mixed cost_cond mixed-no_cond
      (inl cost_cond-made)
