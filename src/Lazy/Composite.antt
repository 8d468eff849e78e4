-- ===== src/Lazy/Composite.antt =====
-- app/models/helper_lazy.go: has-many associations with several foreign keys, or with a scope. The
-- batch load keeps its records in maps whose keys are texts.
use mathlib.Core.List.{map}
use goth_scaffold.Prelude.{
  ℕ, ◌==◌, ◌≡◌, refl, sym, ap, ap₂, ◌∙◌, Text, Bool, false, if◌then◌else◌, List, [], ◌∷◌, any,
  length, join, split_on, split_on-append, split_on_none, text_eq, text_eq_iff, is_empty,
  contains_char, Option, some, digits_from, format_uint, digits_from-format_uint,
  contains-format_uint, is_empty-format_uint, All, if_rule,
}
use goth_scaffold.Queryfilter.Unicode.{trim_space}
use goth_scaffold.Lazy.{Ref, nil_pointer, value, Parent, Querier, lazy_has_many, eager_has_many}
use goth_scaffold.Lazy.Batch.{IsKey}
use goth_scaffold.Lazy.Transparent.{Answers, eager_has_many-transparent}

-- `strings.Join(keyParts, ":")`
unfoldable pub composite_key : List ℕ → Text
unfolding format_uint join
composite_key values = join b':' (map format_uint values)

-- The maps' comparison of two composite keys
unfoldable pub same_composite : List ℕ → List ℕ → Bool
unfolding composite_key text_eq
same_composite a b = text_eq (composite_key a) (composite_key b)

-- A zero among the values
abbrev pub has_zero : List ℕ → Bool
has_zero values = any (λ v. v == 0) values

-- The values of the reference fields; a nil pointer among them leaves none.
abbrev pub cons_value : Ref ℕ → Ref (List ℕ) → Ref (List ℕ)
cons_value (value v) (value vs) = value (v ∷ vs)
cons_value _ _ = nil_pointer

abbrev pub composite_ref : List (Ref ℕ) → Ref (List ℕ)
composite_ref [] = value []
composite_ref (r ∷ refs) = cons_value r (composite_ref refs)

-- The names that are not empty
abbrev pub name_if : Text → List Text → List Text
name_if [] names = names
name_if (c ∷ p) names = (c ∷ p) ∷ names

unfoldable pub trimmed_names : List Text → List Text
unfolding trim_space
trimmed_names [] = []
trimmed_names (p ∷ ps) = name_if (trim_space p) (trimmed_names ps)

-- `_SplitCompositeTag`
unfoldable pub split_composite_tag : Text → List Text
unfolding split_on trimmed_names
split_composite_tag raw = trimmed_names (split_on b',' raw)

abbrev pub or_id : List Text → List Text
or_id [] = (b'I' ∷ b'D' ∷ []) ∷ []
or_id (name ∷ names) = name ∷ names

-- `_EagerHasManyComposite`, by the two tags; the querier applies the scope.
unfoldable pub eager_has_many_composite :
    {C E : Type 0}
    → Text
    → Text
    → Option (Querier (List ℕ) C E)
    → (C → List ℕ)
    → List (Parent (List ℕ) C)
    → List (Parent (List ℕ) C)
unfolding eager_has_many same_composite split_composite_tag
eager_has_many_composite foreign_keys references q key_of items =
    if length (or_id (split_composite_tag references)) == length (split_composite_tag foreign_keys)
    then eager_has_many same_composite has_zero q (λ c. some (key_of c)) items
    else items

split_on-join :
    (p : Text) (ps : List Text)
    → All (λ s. contains_char b':' s ≡ false) (p ∷ ps)
    → split_on b':' (join b':' (p ∷ ps)) ≡ p ∷ ps
unfolding join
split_on-join p [] (h, rest) = split_on_none b':' p h
split_on-join p (q ∷ ps) (h, rest) =
    split_on-append b':' p (join b':' (q ∷ ps)) h ∙ ap (λ t. p ∷ t) (split_on-join q ps rest)

no_colons : (values : List ℕ) → All (λ s. contains_char b':' s ≡ false) (map format_uint values)
no_colons [] = tt
no_colons (v ∷ values) = (contains-format_uint v, no_colons values)

formats-injective : (a b : List ℕ) → map format_uint a ≡ map format_uint b → a ≡ b
formats-injective [] [] h = refl
formats-injective [] (w ∷ b) h = absurd (cc h)
formats-injective (v ∷ a) [] h = absurd (cc h)
formats-injective (v ∷ a) (w ∷ b) h =
    let text : format_uint v ≡ format_uint w = cc h in
    let number : ◌≡◌ {A = Option ℕ} (some v) (some w) =
      sym (digits_from-format_uint v) ∙ ap (digits_from 0) text ∙ digits_from-format_uint w in
    ap₂ (λ x xs. x ∷ xs) (cc number) (formats-injective a b (cc h))

is_empty-join :
    (p : Text) (ps : List Text) → is_empty p ≡ false → is_empty (join b':' (p ∷ ps)) ≡ false
unfolding join
is_empty-join [] ps h = absurd (cc h)
is_empty-join (c ∷ p) [] h = refl
is_empty-join (c ∷ p) (q ∷ ps) h = refl

-- Two lists of values, of whatever lengths, have the same text only if they are the same list.
pub composite_key-injective : (a b : List ℕ) → composite_key a ≡ composite_key b → a ≡ b
unfolding composite_key join
composite_key-injective [] [] h = refl
composite_key-injective [] (w ∷ b) h = absurd (
    cc (
      sym (is_empty-join (format_uint w) (map format_uint b) (is_empty-format_uint w))
      ∙ ap is_empty (sym h)))
composite_key-injective (v ∷ a) [] h = absurd (
    cc (
      sym (is_empty-join (format_uint v) (map format_uint a) (is_empty-format_uint v))
      ∙ ap is_empty h))
composite_key-injective (v ∷ a) (w ∷ b) h = formats-injective (v ∷ a) (w ∷ b) (
    sym (split_on-join (format_uint v) (map format_uint a) (no_colons (v ∷ a)))
    ∙ ap (split_on b':') h
    ∙ split_on-join (format_uint w) (map format_uint b) (no_colons (w ∷ b)))

same_composite-IsKey : IsKey same_composite
unfolding same_composite
same_composite-IsKey = record {
  same_iff = λ a b. (
    (λ h. composite_key-injective a b ((text_eq_iff (composite_key a) (composite_key b)).0 h)),
    (λ e. (text_eq_iff (composite_key a) (composite_key b)).1 (ap composite_key e)),
  );
}

-- If the querier reads one table in one order, loading a has-many association by several foreign
-- keys ahead changes nothing that is seen later, whatever the two tags say.
pub eager_has_many_composite-transparent :
    {C E : Type 0} (foreign_keys references : Text) (q : Querier (List ℕ) C E) (key_of : C → List ℕ)
    (table : List C) (items : List (Parent (List ℕ) C))
    → Answers same_composite (λ c. some (key_of c)) q table
    → map
        (lazy_has_many (some q))
        (eager_has_many_composite foreign_keys references (some q) key_of items)
      ≡ map (lazy_has_many (some q)) items
unfolding eager_has_many_composite
eager_has_many_composite-transparent foreign_keys references q key_of table items answers =
    if_rule (λ loaded. map (lazy_has_many (some q)) loaded ≡ map (lazy_has_many (some q)) items)
      (length (or_id (split_composite_tag references)) == length (split_composite_tag foreign_keys))
      (λ _.
        eager_has_many-transparent same_composite has_zero same_composite-IsKey
          (λ c. some (key_of c)) q table answers items)
      (λ _. refl)
