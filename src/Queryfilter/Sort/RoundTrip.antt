-- ===== src/Queryfilter/Sort/RoundTrip.antt =====
-- sort.go: printed lists of sort fields.
use goth_scaffold.Prelude.{
  ℕ, ◌≡◌, refl, ap, ap₂, ◌∙◌, Text, Bool, true, false, not, ◌&&◌, ◌==◌, List, [], ◌∷◌, ◌++◌, map,
  all, all-append, All, is_empty, contains_char, arith, if◌then◌else◌, split_on, split_on-append,
  split_on_none, join, trim_right,
}
use goth_scaffold.Queryfilter.Unicode.{is_space, trim_space}
use goth_scaffold.Queryfilter.Sort.{SortField, sort_part, sort_parts, parse_sort}

-- Neither white space nor a comma.
unfoldable pub is_name_rune : ℕ → Bool
is_name_rune c = not (is_space c) && not (c == b',')

pub record IsName (s : SortField) : Type 0 where
  pub runes : all is_name_rune s.field ≡ true
  pub not_empty : is_empty s.field ≡ false

-- Each field with its sign.
abbrev pub print_field : SortField → Text
print_field s = (if s.desc then b'-' else b'+') ∷ s.field

pub print_sort : List SortField → Text
print_sort fs = join b',' (map print_field fs)

abbrev pub no_space : Text → Bool
no_space s = all (λ c. not (is_space c)) s

trim_right_self : (s : Text) → no_space s ≡ true → trim_right is_space s ≡ s
unfolding trim_right
trim_right_self [] h = refl
trim_right_self (c ∷ s) h = ground (arith, trim_right_self s)

pub trim_space_self : (s : Text) → no_space s ≡ true → trim_space s ≡ s
unfolding trim_space
trim_space_self [] h = refl
trim_space_self (c ∷ s) h = ground (arith, trim_right_self (c ∷ s))

name-no_space : (s : Text) → all is_name_rune s ≡ true → no_space s ≡ true
unfolding is_name_rune
name-no_space [] h = refl
name-no_space (c ∷ s) h = ground (arith, name-no_space s)

name-contains_char : (s : Text) → all is_name_rune s ≡ true → contains_char b',' s ≡ false
unfolding is_name_rune
name-contains_char [] h = refl
name-contains_char (c ∷ s) h = ground (arith, name-contains_char s)

field-no_space : (s : SortField) → IsName s → no_space (print_field s) ≡ true
unfolding is_space
field-no_space s n = let h = name-no_space s.field n.runes in ground (arith, h)

field-contains_char : (s : SortField) → IsName s → contains_char b',' (print_field s) ≡ false
field-contains_char s n = ground (arith, name-contains_char s.field n.runes)

sort_part-print_field : (s : SortField) → IsName s → sort_part (print_field s) ≡ s ∷ []
unfolding sort_part
sort_part-print_field s n = ground (arith, n.not_empty)

sort_parts-map : (fs : List SortField) → All IsName fs → sort_parts (map print_field fs) ≡ fs
unfolding sort_parts
sort_parts-map [] h = refl
sort_parts-map (f ∷ fs) h =
    ap₂ ◌++◌
      (ap sort_part (trim_space_self (print_field f) (field-no_space f h.0))
        ∙ sort_part-print_field f h.0)
      (sort_parts-map fs h.1)

split_on-print_sort :
    (f : SortField) (fs : List SortField)
    → All IsName (f ∷ fs)
    → split_on b',' (print_sort (f ∷ fs)) ≡ map print_field (f ∷ fs)
unfolding print_sort join
split_on-print_sort f [] h = split_on_none b',' (print_field f) (field-contains_char f h.0)
split_on-print_sort f (g ∷ fs) h =
    split_on-append b',' (print_field f) (print_sort (g ∷ fs)) (field-contains_char f h.0)
    ∙ ap (λ ps. print_field f ∷ ps) (split_on-print_sort g fs h.1)

print_sort-no_space : (fs : List SortField) → All IsName fs → no_space (print_sort fs) ≡ true
unfolding print_sort join is_space
print_sort-no_space [] h = refl
print_sort-no_space (f ∷ []) h = field-no_space f h.0
print_sort-no_space (f ∷ g ∷ fs) h =
    all-append (λ c. not (is_space c)) (print_field f) (b',' ∷ print_sort (g ∷ fs))
    ∙ ap₂ ◌&&◌ (field-no_space f h.0) (print_sort-no_space (g ∷ fs) h.1)

print_sort-not_empty :
    (f : SortField) (fs : List SortField) → is_empty (print_sort (f ∷ fs)) ≡ false
unfolding print_sort join
print_sort-not_empty f [] = refl
print_sort-not_empty f (g ∷ fs) = refl

-- Sort fields whose names hold neither white space nor a comma, and are not empty, are read back from
-- their names with the signs, joined by commas, in the same order and direction.
pub parse_sort-print_sort : (fs : List SortField) → All IsName fs → parse_sort (print_sort fs) ≡ fs
unfolding parse_sort
parse_sort-print_sort [] h = unfold print_sort join in refl
parse_sort-print_sort (f ∷ fs) h =
    rw
      (
        trim_space_self (print_sort (f ∷ fs)) (print_sort-no_space (f ∷ fs) h),
        print_sort-not_empty f fs,
      )
      (rw (split_on-print_sort f fs h) (sort_parts-map (f ∷ fs) h))
