-- ===== src/Lazy/Dispatch.antt =====
-- app/models/helper_lazy.go: which load an association takes, on first access and ahead, and a has-one
-- association.
use goth_scaffold.Prelude.{
  ℕ, suc, ltb, ◌==◌, ◌≡◌, refl, sym, ap, ◌∙◌, arith, Text, codes, text_eq, is_empty, split_on,
  split_on-ne-nil, cons_first, contains_char, Bool, true, false, not, ◌&&◌, ◌||◌, if◌then◌else◌,
  any, List, [], ◌∷◌, All, length, Option, none, some, Result, ok, err,
}
use goth_scaffold.Queryfilter.Unicode.{trim_space}
use goth_scaffold.Models.Tags.{parse_gorm_tag_value}
use goth_scaffold.Lazy.{Ref, nil_pointer, value}
use goth_scaffold.Lazy.Composite.{name_if, trimmed_names, split_composite_tag}
use goth_scaffold.Lazy.Scope.{LazyCondition}

-- The kind of a field's type
pub data FieldKind : Type 0 where
  pointer slice_of_pointers other_type : FieldKind

-- A field, with the conditions that the scope in its tag gives
pub record LazyField (A : Type 0) : Type 0 where
  pub name : Text
  pub is_exported : Bool
  pub gorm_tag : Text
  pub scope : List (LazyCondition A)
  pub kind : FieldKind

-- What is done for a field, with the two tags
pub data EagerLoad (A : Type 0) : Type 0 where
  left_alone : EagerLoad A
  belongs_to_load : Text → EagerLoad A
  has_many_load : Text → Text → EagerLoad A
  composite_load : Text → Text → List (LazyCondition A) → EagerLoad A

-- `strings.TrimPrefix(…, "_")`
abbrev pub trim_underscore : Text → Text
trim_underscore [] = []
trim_underscore (c ∷ s) = if c == b'_' then s else c ∷ s

-- No names, where all are allowed, or those that are
unfoldable pub is_allowed : Option (List Text) → Text → Bool
unfolding text_eq
is_allowed none name = true
is_allowed (some names) name = any (text_eq (trim_underscore name)) names

abbrev pub has_conditions : {A : Type 0} → List (LazyCondition A) → Bool
has_conditions [] = false
has_conditions (c ∷ conds) = true

-- Whether the model has all the fields
unfoldable pub has_fields : List Text → List Text → Bool
unfolding text_eq
has_fields fields [] = true
has_fields fields (fk ∷ fks) = any (text_eq fk) fields && has_fields fields fks

module _ {A : Type 0} (fields : List Text) where
  abbrev load_by_kind : FieldKind → Text → Text → List (LazyCondition A) → EagerLoad A
  unfolding has_fields split_composite_tag
  load_by_kind pointer fk ref scope =
      if has_fields fields (split_composite_tag fk) then belongs_to_load fk else left_alone
  load_by_kind slice_of_pointers fk ref scope =
      if contains_char b',' fk || has_conditions scope
      then composite_load fk ref scope
      else has_many_load fk ref
  load_by_kind other_type fk ref scope = left_alone

  -- The body of the loop of `_AutoEagerLoadFiltered`, for a model with these fields
  unfoldable pub eager_load : Option (List Text) → LazyField A → EagerLoad A
  unfolding load_by_kind is_allowed parse_gorm_tag_value
  eager_load allowed f =
      let fk = parse_gorm_tag_value f.gorm_tag (codes "foreignKey") in
      let ref = parse_gorm_tag_value f.gorm_tag (codes "references") in
      if f.is_exported || is_empty fk || not (is_allowed allowed f.name)
      then left_alone
      else load_by_kind f.kind fk ref f.scope

-- `_IsComposite`, and what else takes `LazyHasMany` to the composite query
unfoldable pub is_composite : Text → Bool
unfolding split_composite_tag
is_composite fk = ltb 1 (length (split_composite_tag fk))

unfoldable pub lazy_by_conditions : {A : Type 0} → LazyField A → Bool
unfolding is_composite parse_gorm_tag_value
lazy_by_conditions f =
    is_composite (parse_gorm_tag_value f.gorm_tag (codes "foreignKey")) || has_conditions f.scope

-- A record with a has-one association, and the queriers of the children's type
pub record HasOne (K C : Type 0) : Type 0 where
  pub ref : Ref K
  pub one : Option C

abbrev pub keep_one : {K C E : Type 0} → Result E C → HasOne K C → Option C × HasOne K C
keep_one (ok c) p = (some c, record p { one = some c })
keep_one (err e) p = (none, p)

abbrev pub find_one :
    {K C E : Type 0} → Option (K → Result E C) → Ref K → HasOne K C → Option C × HasOne K C
find_one find nil_pointer p = (none, p)
find_one none (value k) p = (none, p)
find_one (some find) (value k) p = keep_one (find k) p

-- `LazyHasOne` without options: what it returns, and the record
unfoldable pub lazy_has_one :
    {K C E : Type 0} → Option (K → Result E C) → HasOne K C → Option C × HasOne K C
lazy_has_one find p = elim p.one [ some c ↦ (some c, p) | none ↦ find_one find p.ref p ]

-- No name in the tag is blank.
abbrev pub IsTidy : Text → Type 0
IsTidy fk = All (λ p. is_empty (trim_space p) ≡ false) (split_on b',' fk)

abbrev pub is_composite_load : {A : Type 0} → EagerLoad A → Bool
is_composite_load (composite_load fk ref scope) = true
is_composite_load _ = false

length-cons_first : (c : ℕ) (ps : List Text) → (ps ≡ [] → ⊥) → length (cons_first c ps) ≡ length ps
length-cons_first c [] h = absurd (h refl)
length-cons_first c (p ∷ ps) h = refl

length-split_on : (sep : ℕ) (s : Text) → ltb 1 (length (split_on sep s)) ≡ contains_char sep s
unfolding split_on
length-split_on sep [] = refl
length-split_on sep (c ∷ s) = ground (
  arith,
  length-split_on sep s,
  split_on-ne-nil sep s,
  length-cons_first c (split_on sep s) (split_on-ne-nil sep s),
)

length-name_if :
    (p : Text) (names : List Text)
    → is_empty p ≡ false
    → length (name_if p names) ≡ suc (length names)
length-name_if [] names h = absurd (cc h)
length-name_if (c ∷ p) names h = refl

length-trimmed_names :
    (ps : List Text)
    → All (λ p. is_empty (trim_space p) ≡ false) ps
    → length (trimmed_names ps) ≡ length ps
unfolding trimmed_names
length-trimmed_names [] h = refl
length-trimmed_names (p ∷ ps) h =
    length-name_if (trim_space p) (trimmed_names ps) h.0 ∙ ap suc (length-trimmed_names ps h.1)

is_composite-contains_char : (fk : Text) → IsTidy fk → is_composite fk ≡ contains_char b',' fk
unfolding is_composite split_composite_tag
is_composite-contains_char fk tidy =
    ap (ltb 1) (length-trimmed_names (split_on b',' fk) tidy) ∙ length-split_on b',' fk

is_composite_load-if :
    {A : Type 0} (b : Bool) (fk ref : Text) (scope : List (LazyCondition A))
    → is_composite_load (if b then composite_load fk ref scope else has_many_load fk ref) ≡ b
is_composite_load-if true fk ref scope = refl
is_composite_load-if false fk ref scope = refl

-- A slice association that is loaded ahead takes the query by several columns exactly if its first access
-- does, where no name in its tag is blank.
pub eager_load-lazy_by_conditions :
    {A : Type 0} (fields : List Text) (f : LazyField A)
    → f.kind ≡ slice_of_pointers
    → f.is_exported ≡ false
    → is_empty (parse_gorm_tag_value f.gorm_tag (codes "foreignKey")) ≡ false
    → IsTidy (parse_gorm_tag_value f.gorm_tag (codes "foreignKey"))
    → is_composite_load (eager_load fields none f) ≡ lazy_by_conditions f
unfolding eager_load lazy_by_conditions load_by_kind is_allowed
eager_load-lazy_by_conditions fields f k x e tidy =
    let fk = parse_gorm_tag_value f.gorm_tag (codes "foreignKey") in
    rw (x, e, k)
      (is_composite_load-if (contains_char b',' fk || has_conditions f.scope) fk _ f.scope
        ∙ ap (λ b. b || has_conditions f.scope) (sym (is_composite-contains_char fk tidy)))
