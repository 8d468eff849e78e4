-- ===== src/Models/Tags.antt =====
-- app/models/helper.go and helper_lazy.go: what is read of a `gorm` tag, and names of columns.
use goth_scaffold.Prelude.{
  ℕ, ◌+◌, ◌==◌, leb, ◌≡◌, refl, Text, codes, Bool, true, false, not, ◌&&◌, ◌||◌, if◌then◌else◌,
  List, [], ◌∷◌, ◌++◌, all, is_empty, text_eq, split_on, Option, none, some, arith,
}
use goth_scaffold.Queryfilter.Unicode.{trim_space}

-- `strings.CutPrefix(s, pre)`
unfoldable pub cut_prefix : Text → Text → Option Text
cut_prefix s [] = some s
cut_prefix [] (q ∷ pre) = none
cut_prefix (c ∷ s) (q ∷ pre) = let rest = cut_prefix s pre in if c == q then rest else none

abbrev pub or_rest : Option Text → Text → Text
or_rest (some found) rest = found
or_rest none rest = rest

-- The loop of `_GormTagValue` over the parts
unfoldable pub gorm_parts : Text → List Text → Text
unfolding cut_prefix
gorm_parts key [] = []
gorm_parts key (part ∷ parts) = or_rest (cut_prefix part (key ++ codes ":")) (gorm_parts key parts)

-- `_GormTagValue`
unfoldable pub gorm_tag_value : Text → Text → Text
unfolding gorm_parts split_on
gorm_tag_value tag key = gorm_parts key (split_on b';' tag)

abbrev pub cons_front : ℕ → Option (Text × Text) → Option (Text × Text)
cons_front c none = none
cons_front c (some (before, behind)) = some (c ∷ before, behind)

-- `strings.SplitN(part, ":", 2)`, where it has two parts
unfoldable pub split_pair : Text → Option (Text × Text)
split_pair [] = none
split_pair (c ∷ s) =
    let rest = split_pair s in if c == b':' then some ([], s) else cons_front c rest

unfoldable pub value_if : Text → Option (Text × Text) → Option Text
unfolding text_eq trim_space
value_if key none = none
value_if key (some (name, text)) =
    if text_eq (trim_space name) key then some (trim_space text) else none

unfoldable pub parse_gorm_parts : Text → List Text → Text
unfolding split_pair value_if
parse_gorm_parts key [] = []
parse_gorm_parts key (part ∷ parts) =
    or_rest (value_if key (split_pair part)) (parse_gorm_parts key parts)

-- `_ParseGormTagValue`
unfoldable pub parse_gorm_tag_value : Text → Text → Text
unfolding parse_gorm_parts split_on
parse_gorm_tag_value tag key = parse_gorm_parts key (split_on b';' tag)

abbrev pub is_upper : ℕ → Bool
is_upper c = leb b'A' c && leb c b'Z'

abbrev pub is_lower : ℕ → Bool
is_lower c = leb b'a' c && leb c b'z'

abbrev pub next_is_lower : Text → Bool
next_is_lower [] = false
next_is_lower (c ∷ s) = is_lower c

-- Whether an underscore goes before a capital, by the character before it and what is behind it
abbrev pub is_boundary : Option ℕ → Text → Bool
is_boundary none s = false
is_boundary (some p) s = is_lower p || next_is_lower s && is_upper p

-- The loop of `_ToSnakeCase`, behind the character `before`
unfoldable pub snake_from : Option ℕ → Text → Text
snake_from before [] = []
snake_from before (c ∷ s) =
    let rest = snake_from (some c) s in
    if is_upper c
    then (if is_boundary before s then b'_' ∷ ((c + 32) ∷ rest) else (c + 32) ∷ rest)
    else c ∷ rest

-- `_ToSnakeCase`
unfoldable pub to_snake_case : Text → Text
unfolding snake_from
to_snake_case s = snake_from none s

-- `_ChildColumn`, by the tag of the field, if the child has the field
unfoldable pub child_column : Option Text → Text → Text
unfolding parse_gorm_tag_value to_snake_case
child_column none field_name = to_snake_case field_name
child_column (some tag) field_name =
    let column = parse_gorm_tag_value tag (codes "column") in
    if is_empty column then to_snake_case field_name else column

no_upper : Text → Bool
no_upper s = all (λ c. not (is_upper c)) s

snake_from-no_upper : (before : Option ℕ) (s : Text) → no_upper (snake_from before s) ≡ true
unfolding snake_from no_upper
snake_from-no_upper before [] = refl
snake_from-no_upper before (c ∷ s) = ground (arith, snake_from-no_upper (some c) s)

snake_from_self : (before : Option ℕ) (s : Text) → no_upper s ≡ true → snake_from before s ≡ s
unfolding snake_from no_upper
snake_from_self before [] h = refl
snake_from_self before (c ∷ s) h = ground (arith, snake_from_self (some c) s)

-- The name of a column has no capital letter, and is its own snake case.
pub to_snake_case_idem :
    (s : Text)
    → (all (λ c. not (is_upper c)) (to_snake_case s) ≡ true)
      × (to_snake_case (to_snake_case s) ≡ to_snake_case s)
unfolding to_snake_case no_upper
to_snake_case_idem s = (
  snake_from-no_upper none s,
  snake_from_self none (snake_from none s) (snake_from-no_upper none s),
)
