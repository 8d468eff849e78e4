-- ===== src/Models/Readers.antt =====
-- app/models/helper.go and helper_lazy.go: the two readers of a `gorm` tag side by side.
use goth_scaffold.Prelude.{
  ℕ, ◌==◌, ◌≡◌, refl, sym, ap₂, ◌∙◌, Text, codes, true, false, if◌then◌else◌, List, [], ◌∷◌, ◌++◌,
  All, text_eq, split_on, cons_first, contains_char, Option, none, some, arith, if_rule,
}
use goth_scaffold.Queryfilter.Unicode.{is_space}
use goth_scaffold.Queryfilter.Sort.RoundTrip.{no_space, trim_space_self}
use goth_scaffold.Models.Tags.{
  cut_prefix, or_rest, gorm_parts, gorm_tag_value, cons_front, split_pair, value_if,
  parse_gorm_parts, parse_gorm_tag_value,
}

abbrev untrimmed : Text → Option (Text × Text) → Option Text
unfolding text_eq
untrimmed key none = none
untrimmed key (some (name, text)) = if text_eq name key then some text else none

-- A prefix up to the colon, against the two sides of the first colon
cut_prefix-split_pair :
    (s key : Text)
    → contains_char b':' key ≡ false
    → cut_prefix s (key ++ codes ":") ≡ untrimmed key (split_pair s)
unfolding cut_prefix split_pair text_eq
cut_prefix-split_pair [] [] h = refl
cut_prefix-split_pair [] (k ∷ key) h = refl
cut_prefix-split_pair (c ∷ s) [] h = ground arith
cut_prefix-split_pair (c ∷ s) (k ∷ key) h = ground (arith, cut_prefix-split_pair s key)

abbrev Spaceless : Option (Text × Text) → Type 0
Spaceless none = Unit
Spaceless (some (name, text)) = (no_space name ≡ true) × (no_space text ≡ true)

cons_front-Spaceless :
    (c : ℕ) (o : Option (Text × Text))
    → is_space c ≡ false
    → Spaceless o
    → Spaceless (cons_front c o)
cons_front-Spaceless c none e h = tt
cons_front-Spaceless c (some (name, text)) e h = (ground (arith, h.0), h.1)

first-no_space : (c : ℕ) (s : Text) → no_space (c ∷ s) ≡ true → is_space c ≡ false
first-no_space c s h = ground arith

rest-no_space : (c : ℕ) (s : Text) → no_space (c ∷ s) ≡ true → no_space s ≡ true
rest-no_space c s h = ground arith

split_pair-Spaceless : (s : Text) → no_space s ≡ true → Spaceless (split_pair s)
unfolding split_pair
split_pair-Spaceless [] h = tt
split_pair-Spaceless (c ∷ s) h =
    if_rule Spaceless (c == b':') (λ _. (refl, rest-no_space c s h))
      (λ _.
        cons_front-Spaceless c (split_pair s) (first-no_space c s h)
          (split_pair-Spaceless s (rest-no_space c s h)))

value_if-untrimmed :
    (key : Text) (o : Option (Text × Text)) → Spaceless o → value_if key o ≡ untrimmed key o
unfolding value_if untrimmed
value_if-untrimmed key none h = refl
value_if-untrimmed key (some (name, text)) h =
    ap₂ (λ a b. if text_eq a key then some b else none) (trim_space_self name h.0)
      (trim_space_self text h.1)

cons_first-no_space :
    (c : ℕ) (ps : List Text)
    → is_space c ≡ false
    → All (λ p. no_space p ≡ true) ps
    → All (λ p. no_space p ≡ true) (cons_first c ps)
cons_first-no_space c [] e h = (ground arith, tt)
cons_first-no_space c (p ∷ ps) e h = (ground (arith, h.0), h.1)

split_on-no_space :
    (sep : ℕ) (s : Text) → no_space s ≡ true → All (λ p. no_space p ≡ true) (split_on sep s)
unfolding split_on
split_on-no_space sep [] h = (refl, tt)
split_on-no_space sep (c ∷ s) h =
    let rest = split_on-no_space sep s (rest-no_space c s h) in
    if_rule (All (λ p. no_space p ≡ true)) (c == sep) (λ _. (refl, rest))
      (λ _. cons_first-no_space c (split_on sep s) (first-no_space c s h) rest)

parts-agree :
    (key : Text) (parts : List Text)
    → contains_char b':' key ≡ false
    → All (λ p. no_space p ≡ true) parts
    → parse_gorm_parts key parts ≡ gorm_parts key parts
unfolding parse_gorm_parts gorm_parts
parts-agree key [] h spaces = refl
parts-agree key (p ∷ parts) h (space, spaces) =
    ap₂ or_rest
      (value_if-untrimmed key (split_pair p) (split_pair-Spaceless p space)
        ∙ sym (cut_prefix-split_pair p key h))
      (parts-agree key parts h spaces)

-- The reader of the lengths and the reader of the associations find the same value in a tag without
-- white space, for every key without a colon.
pub parse_gorm_tag_value-gorm_tag_value :
    (tag key : Text)
    → no_space tag ≡ true
    → contains_char b':' key ≡ false
    → parse_gorm_tag_value tag key ≡ gorm_tag_value tag key
unfolding parse_gorm_tag_value gorm_tag_value
parse_gorm_tag_value-gorm_tag_value tag key h k =
    parts-agree key (split_on b';' tag) k (split_on-no_space b';' tag h)
