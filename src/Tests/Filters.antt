-- ===== src/Tests/Filters.antt =====
-- Runs of the lexer and the parser.
use goth_scaffold.Prelude.{codes, ◌≡◌, refl, some, ok, err}
use goth_scaffold.Queryfilter.Syntax.{op_eq, op_gt, logical_and, logical_or, comparison, logical}
use goth_scaffold.Queryfilter.Unicode.{ascii}
use goth_scaffold.Queryfilter.Lexer.{next, unterminated_string}
use goth_scaffold.Queryfilter.Parser.{lexical, parse_filter}

parse_filter-precedence :
    parse_filter ascii (codes "a==1,b=GT=\"x y\";(c>2,d=='')")
    ≡ ok (
        some (
          logical logical_or (comparison (codes "a") op_eq (codes "1")) (
            logical logical_and (comparison (codes "b") op_gt (codes "x y")) (
              logical logical_or
                (comparison (codes "c") op_gt (codes "2"))
                (comparison (codes "d") op_eq (codes ""))))))
unfolding next parse_filter
parse_filter-precedence = refl

parse_filter-unterminated : parse_filter ascii (codes "a==1 'b") ≡ err (lexical unterminated_string)
unfolding next parse_filter
parse_filter-unterminated = refl
