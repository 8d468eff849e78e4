-- ===== src/Queryfilter/Sort.antt =====
-- sort.go: the parser of `s=`.
pub mod RoundTrip
use goth_scaffold.Prelude.{
  Text, Bool, true, false, ◌||◌, ◌==◌, if◌then◌else◌, List, [], ◌∷◌, ◌++◌, is_empty, split_on,
}
use goth_scaffold.Queryfilter.Unicode.{trim_space}

pub record SortField : Type 0 where
  pub field : Text
  pub desc : Bool

abbrev field_if : Bool → Text → List SortField
field_if desc [] = []
field_if desc (c ∷ p) = record { field = c ∷ p; desc = desc } ∷ []

-- What one trimmed part adds to the result
unfoldable pub sort_part : Text → List SortField
sort_part [] = []
sort_part (c ∷ p) =
    if c == b'-'
    then field_if true p
    else if c == b'+'
    then field_if false p
    else field_if false (c ∷ p)

-- The loop over the parts
unfoldable pub sort_parts : List Text → List SortField
unfolding sort_part trim_space
sort_parts [] = []
sort_parts (p ∷ ps) = sort_part (trim_space p) ++ sort_parts ps

-- `ParseSort`; a nil slice is an empty one.
unfoldable pub parse_sort : Text → List SortField
unfolding sort_parts trim_space split_on
parse_sort s =
    let trimmed = trim_space s in
    if is_empty trimmed then [] else sort_parts (split_on b',' trimmed)
