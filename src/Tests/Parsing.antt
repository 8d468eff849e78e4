-- ===== src/Tests/Parsing.antt =====
-- The theorems on the parser, on the dialects and on the encrypted ids at fixed inputs.
use goth_scaffold.Prelude.{◌≡◌, ◌≢◌, ◌↔◌, refl, codes, some, ok, err}
use goth_scaffold.Queryfilter.Unicode.{ascii}
use goth_scaffold.Queryfilter.Syntax.{Node, comparison, op_eq}
use goth_scaffold.Queryfilter.Lexer.{next}
use goth_scaffold.Queryfilter.Parser.{parse_filter, out_of_fuel}
use goth_scaffold.Queryfilter.Parser.Grammar.{IsFilter}
use goth_scaffold.Queryfilter.Parser.Total.{parse_filter-total}
use goth_scaffold.Queryfilter.Parser.Complete.{parse_filter_iff}

abbrev a_is_one : Node
a_is_one = comparison (codes "a") op_eq (codes "1")

parse_filter_iff_example :
    (parse_filter ascii (codes "a==1") ≡ ok (some a_is_one))
    ↔ IsFilter ascii (codes "a==1") a_is_one
parse_filter_iff_example = parse_filter_iff ascii (codes "a==1") a_is_one

parse_filter-total_example : parse_filter ascii (codes "((a==1") ≢ err out_of_fuel
parse_filter-total_example = parse_filter-total ascii (codes "((a==1")

a_is_one-parsed : parse_filter ascii (codes "a==1") ≡ ok (some a_is_one)
unfolding next parse_filter
a_is_one-parsed = refl
