-- ===== src/Tests/Queries.antt =====
-- The theorems on filters at fixed filters and rows.
use goth_scaffold.Prelude.{ℕ, ◌≡◌, refl, codes, true, ◌&&◌, List, [], ◌∷◌, keep, some, inl, ok}
use mathlib.Core.List.{Perm}
use goth_scaffold.Tests.Data.{no_float, items, mysql, below_ten, gorm, gorm_rows, items-IsMarked}
use goth_scaffold.Queryfilter.Syntax.{Node, comparison, logical, op_eq, op_gt, logical_and}
use goth_scaffold.Queryfilter.Sort.{SortField}
use goth_scaffold.Queryfilter.Conditions.{
  leaf_to_db_cond, node_to_db_cond, collect_tree, build_gorm_scope,
}
use goth_scaffold.Queryfilter.Memory.{
  eval_tree, eval_leaf, build_in_memory_fn, QueryOption, apply_gorm, apply_filter, to_option,
}
use goth_scaffold.Queryfilter.Semantics.{HasWords, Splits, denotes, all_hold, stored, held, both}
use goth_scaffold.Queryfilter.Semantics.Split.{split_exact, split_complete}
use goth_scaffold.Queryfilter.Semantics.Find.{find_exact}
use goth_scaffold.Prelude.{any, ◌==◌, if◌then◌else◌, none, Text, ok}
use goth_scaffold.Queryfilter.Lexer.{next}
use goth_scaffold.Queryfilter.Unicode.{ascii}
use goth_scaffold.Queryfilter.Parser.{parse_filter}
use goth_scaffold.Repository.{Reads, head_of, first_where, find_where}
use goth_scaffold.Repository.First.{first_where-to_option, find_where-parse_filter}

abbrev costly : Node
costly = comparison (codes "price") op_gt (codes "3")

abbrev is_even : Node
is_even = comparison (codes "even") op_eq (codes "1")

abbrev costly_and_even : Node
costly_and_even = logical logical_and costly is_even

abbrev by_price : List SortField
by_price = record { field = codes "price"; desc = true } ∷ []

abbrev option : QueryOption (List ℕ) ℕ
option = record {
  gorm_fn = build_gorm_scope mysql gorm no_float (some costly_and_even) by_price items;
  filter_fn = build_in_memory_fn (some costly_and_even) by_price items;
}

costly-HasWords : HasWords costly_and_even
costly-HasWords = (inl refl, tt, tt)

costly-Splits : Splits no_float mysql items costly_and_even
unfolding items node_to_db_cond
costly-Splits = both (stored refl) (held refl)

option-accepted : to_option no_float mysql gorm (some costly_and_even) by_price items ≡ ok option
unfolding to_option items
option-accepted = refl

find_exact_example :
    Perm
      (apply_filter option (apply_gorm option (2 ∷ 5 ∷ 12 ∷ 8 ∷ [])))
      (keep (denotes no_float mysql below_ten items costly_and_even) (2 ∷ 5 ∷ 12 ∷ 8 ∷ []))
find_exact_example =
    find_exact mysql below_ten gorm gorm_rows no_float items costly_and_even by_price option
      (2 ∷ 5 ∷ 12 ∷ 8 ∷ []) option-accepted items-IsMarked costly-HasWords costly-Splits

split_exact_example :
    (all_hold no_float mysql below_ten (collect_tree no_float mysql items costly_and_even) 8
      && eval_tree items costly_and_even 8)
    ≡ denotes no_float mysql below_ten items costly_and_even 8
split_exact_example =
    split_exact no_float mysql below_ten items costly_and_even 8 items-IsMarked costly-HasWords
      costly-Splits

eight-denoted : denotes no_float mysql below_ten items costly_and_even 8 ≡ true
unfolding denotes items leaf_to_db_cond eval_leaf
eight-denoted = refl

split_complete_example :
    (all_hold no_float mysql below_ten (collect_tree no_float mysql items costly_and_even) 8 ≡ true)
    × (eval_tree items costly_and_even 8 ≡ true)
split_complete_example =
    split_complete no_float mysql below_ten items costly_and_even 8 items-IsMarked costly-HasWords
      eight-denoted

-- Every query succeeds.
abbrev reads : Reads (List ℕ) Unit ℕ ℕ
reads = record {
  find = λ db. ok db;
  first = λ db. ok (head_of db);
  where_id = λ id db. keep (λ x. x == id) db;
  where_ids = λ ids db. keep (λ x. any (λ id. x == id) ids) db;
}

abbrev all_rows : List ℕ
all_rows = 2 ∷ 5 ∷ 12 ∷ 8 ∷ []

first-row : reads.first (apply_gorm option all_rows) ≡ ok (some 2)
unfolding build_gorm_scope items
first-row = refl

first_where-to_option_example :
    first_where reads (λ db. db) (option ∷ []) all_rows
    ≡ ok (if eval_tree items costly_and_even 2 then some 2 else none)
first_where-to_option_example =
    first_where-to_option no_float mysql gorm reads items costly_and_even by_price option (λ db. db)
      all_rows 2 option-accepted first-row

abbrev request : Text
request = codes "price>3;even==1"

request-parsed : parse_filter ascii request ≡ ok (some costly_and_even)
unfolding next parse_filter
request-parsed = refl

find_where-parse_filter_example :
    (xs : List ℕ) × (find_where reads (λ db. db) (option ∷ []) all_rows ≡ ok xs)
    × Perm xs (keep (denotes no_float mysql below_ten items costly_and_even) all_rows)
find_where-parse_filter_example =
    find_where-parse_filter ascii no_float mysql below_ten gorm gorm_rows reads items request
      costly_and_even by_price option (λ db. db) all_rows request-parsed option-accepted
      items-IsMarked costly-Splits refl
