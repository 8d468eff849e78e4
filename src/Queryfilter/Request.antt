-- ===== src/Queryfilter/Request.antt =====
-- app/components/queryfilter/request.go: the filter and the sort list of a request, by the values of
-- its parameters `q` and `s`.
use goth_scaffold.Prelude.{Text, List, Option, Result, ok, ◌>>=◌}
use goth_scaffold.Queryfilter.Unicode.{Unicode}
use goth_scaffold.Queryfilter.Syntax.{Node}
use goth_scaffold.Queryfilter.Sort.{SortField, parse_sort}
use goth_scaffold.Queryfilter.Parser.{ParseError, parse_filter}

-- `FromRequest`
unfoldable pub from_request :
    Unicode → Text → Text → Result ParseError (Option Node × List SortField)
unfolding parse_filter parse_sort
from_request u q s = do node ← parse_filter u q; ok (node, parse_sort s)
