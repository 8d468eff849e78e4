-- ===== src/Lazy/Meta.antt =====
-- app/models/helper_lazy.go: what is read of an association's tags, once for each type and field, the check of
-- the tags, and the registry of queriers.
use goth_scaffold.Prelude.{
  ℕ, Text, text_eq, text_eq_iff, is_empty, split_on, Bool, false, not, if◌then◌else◌, List, [], ◌∷◌,
  ◌++◌, Option, none, some, is_some, Result, ok, err, ◌≡◌, refl, sym, arith, Bool-cases,
  Option-cases, Result-cases, inl, inr, codes, ltb, length, ◌==◌,
}
use goth_scaffold.Queryfilter.Unicode.{trim_space}
use goth_scaffold.Models.Tags.{parse_gorm_tag_value}
use goth_scaffold.Lazy.Composite.{split_composite_tag}

-- A field of a struct, with its two tags and whether it is a pointer
pub record TypeField : Type 0 where
  pub field_name : Text
  pub gorm_tag : Text
  pub scope_tag : Text
  pub is_pointer : Bool

-- A model's type: its `Name()`, which has no package, and its fields
pub record ModelType : Type 0 where
  pub type_name : Text
  pub type_fields : List TypeField

-- `_LazyMeta`
pub record LazyMeta : Type 0 where
  pub fk_field_name : Text
  pub ref_field_name : Text
  pub fk_is_ptr : Bool
  pub fk_field_names : List Text
  pub ref_field_names : List Text
  pub scope_name : Text

-- The panics of `_GetLazyMeta` and of `ValidateLazyTags`; the last is that of an index outside the list of names.
pub data MetaPanic : Type 0 where
  no_lazy_field missing_foreign_key no_names : MetaPanic
  no_fk_field no_references_field : Text → MetaPanic

-- `FieldByName`
unfoldable pub type_field_by_name : List TypeField → Text → Option TypeField
unfolding text_eq
type_field_by_name [] name = none
type_field_by_name (f ∷ fs) name =
    let rest = type_field_by_name fs name in if text_eq f.field_name name then some f else rest

abbrev pub is_pointer_field : Option TypeField → Bool
is_pointer_field none = false
is_pointer_field (some f) = f.is_pointer

-- `fkNames[0]` and `refNames[0]`, and the rest of the record
abbrev pub meta_of : ModelType → Text → List Text → List Text → Result MetaPanic LazyMeta
meta_of t scope [] refs = err no_names
meta_of t scope (fk ∷ fks) [] = err no_names
meta_of t scope (fk ∷ fks) (ref ∷ refs) = ok (record {
  fk_field_name = fk;
  ref_field_name = ref;
  fk_is_ptr =
      if ltb 1 (length (fk ∷ fks))
      then false
      else is_pointer_field (type_field_by_name t.type_fields fk);
  fk_field_names = fk ∷ fks;
  ref_field_names = ref ∷ refs;
  scope_name = scope;
})

-- The part of `_GetLazyMeta` behind the tag's foreign key
abbrev pub meta_of_tags : ModelType → TypeField → Result MetaPanic LazyMeta
unfolding parse_gorm_tag_value split_composite_tag
meta_of_tags t f =
    let fk_raw = parse_gorm_tag_value f.gorm_tag (codes "foreignKey") in
    let ref_raw = parse_gorm_tag_value f.gorm_tag (codes "references") in
    if is_empty fk_raw
    then err missing_foreign_key
    else meta_of t f.scope_tag (split_composite_tag fk_raw)
        (if is_empty ref_raw then codes "ID" ∷ [] else split_composite_tag ref_raw)

abbrev pub meta_of_field : ModelType → Option TypeField → Result MetaPanic LazyMeta
unfolding meta_of_tags
meta_of_field t none = err no_lazy_field
meta_of_field t (some f) = meta_of_tags t f

-- What `_GetLazyMeta` computes where the cache has nothing
unfoldable pub parse_lazy_meta : ModelType → Text → Result MetaPanic LazyMeta
unfolding meta_of_field type_field_by_name
parse_lazy_meta t name = meta_of_field t (type_field_by_name t.type_fields name)

abbrev pub meta_key : ModelType → Text → Text
meta_key t name = t.type_name ++ (b'.' ∷ name)

-- `_LazyMetaCache`, an association list
unfoldable pub cached_meta : List (Text × LazyMeta) → Text → Option LazyMeta
unfolding text_eq
cached_meta [] key = none
cached_meta ((k, m) ∷ rest) key =
    let more = cached_meta rest key in if text_eq k key then some m else more

abbrev pub keep_meta :
    Text
    → List (Text × LazyMeta)
    → Result MetaPanic LazyMeta
    → Result MetaPanic LazyMeta × List (Text × LazyMeta)
keep_meta key cache (err e) = (err e, cache)
keep_meta key cache (ok m) = (ok m, (key, m) ∷ cache)

abbrev pub meta_or_parse :
    Option LazyMeta
    → Result MetaPanic LazyMeta × List (Text × LazyMeta)
    → List (Text × LazyMeta)
    → Result MetaPanic LazyMeta × List (Text × LazyMeta)
meta_or_parse (some m) parsed cache = (ok m, cache)
meta_or_parse none parsed cache = parsed

-- `_GetLazyMeta`
unfoldable pub get_lazy_meta :
    List (Text × LazyMeta) → ModelType → Text → Result MetaPanic LazyMeta × List (Text × LazyMeta)
unfolding parse_lazy_meta cached_meta
get_lazy_meta cache t name =
    meta_or_parse (cached_meta cache (meta_key t name))
      (keep_meta (meta_key t name) cache (parse_lazy_meta t name)) cache

-- One name of a tag after the other; the panic names the first that is no field.
abbrev pub check_names : (Text → MetaPanic) → List TypeField → List Text → Option MetaPanic
unfolding trim_space type_field_by_name
check_names panic fields [] = none
check_names panic fields (part ∷ parts) =
    let rest = check_names panic fields parts in
    if not (is_some (type_field_by_name fields (trim_space part)))
    then some (panic (trim_space part))
    else rest

abbrev pub first_panic : Option MetaPanic → Option MetaPanic → Option MetaPanic
first_panic none next = next
first_panic (some p) next = some p

-- One round of the loop of `ValidateLazyTags`
unfoldable pub validate_field_tags : List TypeField → TypeField → Option MetaPanic
unfolding parse_gorm_tag_value split_on check_names
validate_field_tags fields f =
    let fk = parse_gorm_tag_value f.gorm_tag (codes "foreignKey") in
    let ref = parse_gorm_tag_value f.gorm_tag (codes "references") in
    if is_empty fk
    then none
    else first_panic (check_names no_fk_field fields (split_on b',' fk))
        (if is_empty ref then none else check_names no_references_field fields (split_on b',' ref))

unfoldable pub validate_lazy_tags : List TypeField → List TypeField → Option MetaPanic
unfolding validate_field_tags
validate_lazy_tags fields [] = none
validate_lazy_tags fields (f ∷ fs) =
    let rest = validate_lazy_tags fields fs in first_panic (validate_field_tags fields f) rest

-- `_LazyQuerierRegistry`, by the types, and the default
pub record Queriers (Q : Type 0) : Type 0 where
  pub default_querier : Option Q
  pub of_types : List (ℕ × Q)

module _ {Q : Type 0} where
  abbrev pub override_of : List (ℕ × Q) → ℕ → Option Q
  override_of [] t = none
  override_of ((k, q) ∷ rest) t = let more = override_of rest t in if k == t then some q else more

  abbrev pub querier_or : Option Q → Option Q → Option Q
  querier_or (some q) d = some q
  querier_or none d = d

  -- `_GetQuerierForType`
  unfoldable pub get_querier_for_type : Queriers Q → ℕ → Option Q
  get_querier_for_type r t = querier_or (override_of r.of_types t) r.default_querier

  abbrev pub register_lazy_querier : Q → Queriers Q → Queriers Q
  register_lazy_querier q r = record r { default_querier = some q }

  abbrev pub drop_override : ℕ → List (ℕ × Q) → List (ℕ × Q)
  drop_override t [] = []
  drop_override t ((k, q) ∷ rest) =
      let more = drop_override t rest in if k == t then more else (k, q) ∷ more

  -- `RegisterModelQuerier`
  unfoldable pub register_model_querier : ℕ → Q → Queriers Q → Queriers Q
  register_model_querier t q r = record r { of_types = (t, q) ∷ drop_override t r.of_types }

  -- `UnregisterModelQuerier`
  unfoldable pub unregister_model_querier : ℕ → Queriers Q → Queriers Q
  unregister_model_querier t r = record r { of_types = drop_override t r.of_types }

  override_of-drop_override :
      (t u : ℕ) (os : List (ℕ × Q))
      → override_of (drop_override t os) u ≡ (if t == u then none else override_of os u)
  override_of-drop_override t u [] = ground arith
  override_of-drop_override t u ((k, q) ∷ os) = ground (arith, override_of-drop_override t u os)

  -- A querier that is registered for a type is that type's until it is taken back, and the default is behind it; other
  -- types have theirs.
  pub get_querier_for_type-register_model_querier :
      (t u : ℕ) (q : Q) (r : Queriers Q)
      → (get_querier_for_type (register_model_querier t q r) u
          ≡ (if t == u then some q else get_querier_for_type r u))
        × (get_querier_for_type (unregister_model_querier t r) u
            ≡ (if t == u then r.default_querier else get_querier_for_type r u))
  unfolding get_querier_for_type register_model_querier unregister_model_querier
  get_querier_for_type-register_model_querier t u q r = (
    ground (arith, override_of-drop_override t u r.of_types),
    ground (arith, override_of-drop_override t u r.of_types),
  )

module _ (P : ModelType → Text → Type 0) where
  -- The types and fields of the program that are asked for: no two have one name.
  pub record NamesDiffer : Type 0 where
    pub same_meta :
        (t u : ModelType) (f g : Text)
        → P t f
        → P u g
        → meta_key t f ≡ meta_key u g
        → parse_lazy_meta t f ≡ parse_lazy_meta u g

  -- The cache holds what is read of the tags.
  pub record IsParsed (cache : List (Text × LazyMeta)) : Type 0 where
    pub parsed :
        (t : ModelType) (f : Text) (m : LazyMeta)
        → P t f
        → cached_meta cache (meta_key t f) ≡ some m
        → parse_lazy_meta t f ≡ ok m

  module _ (differ : NamesDiffer) where
    kept-IsParsed :
        (cache : List (Text × LazyMeta)) (t : ModelType) (f : Text) (m : LazyMeta)
        → IsParsed cache
        → P t f
        → parse_lazy_meta t f ≡ ok m
        → IsParsed ((meta_key t f, m) ∷ cache)
    unfolding cached_meta
    kept-IsParsed cache t f m h p e = record {
      parsed = λ u g n q k. elim (Bool-cases (text_eq (meta_key t f) (meta_key u g))) [
        | inl same ↦
            let one =
              differ.same_meta t u f g p q ((text_eq_iff (meta_key t f) (meta_key u g)).0 same) in
            let found : some m ≡ some n = rw same at k in cc
        | inr other ↦ h.parsed u g n q (rw other at k)
      ];
    }

    -- On a cache that holds what is read of the tags, the answer is what is read of the tags, and the cache still
    -- does, if no two types and fields of the program have one name.
    pub get_lazy_meta-IsParsed :
        (cache : List (Text × LazyMeta)) (t : ModelType) (f : Text)
        → P t f
        → IsParsed cache
        → ((get_lazy_meta cache t f).0 ≡ parse_lazy_meta t f) × IsParsed (get_lazy_meta cache t f).1
    unfolding get_lazy_meta
    get_lazy_meta-IsParsed cache t f p h = elim (Option-cases (cached_meta cache (meta_key t f))) [
      | inr (m, e) ↦ rw e (sym (h.parsed t f m p e), h)
      | inl e ↦ elim (Result-cases (parse_lazy_meta t f)) [
        | inl (m, k) ↦ rw (e, k) (refl, kept-IsParsed cache t f m h p k)
        | inr (x, k) ↦ rw (e, k) (refl, h)
      ]
    ]
