-- ===== src/Models/Keys.antt =====
-- app/models/helper_lazy.go and app/repositories/database_repository.go: the primary key of a struct, by
-- reflection on its fields. The exported fields of a struct are a list; `to_lower` is `unicode.ToLower`.
use goth_scaffold.Prelude.{
  ℕ, zero, suc, ◌≡◌, refl, sym, subst, ap, ◌∙◌, arith, Text, codes, contains, text_eq, text_eq_iff,
  text_eq_refl, Bool, true, false, if◌then◌else◌, List, [], ◌∷◌, map, Option, none, some,
  Option-cases, ℤ, pos, is_empty, inl, inr,
}

-- A value of a field: of a signed, an unsigned or a string kind, or another with whether it is zero
pub data FieldValue : Type 0 where
  int_value : ℤ → FieldValue
  uint_value : ℕ → FieldValue
  string_value : Text → FieldValue
  other_value : Bool → Text → FieldValue

pub record ModelField : Type 0 where
  pub name : Text
  pub gorm_tag : Text
  pub held : FieldValue

-- `IsZero`
abbrev pub is_zero_value : FieldValue → Bool
is_zero_value (int_value (pos zero)) = true
is_zero_value (int_value _) = false
is_zero_value (uint_value zero) = true
is_zero_value (uint_value (suc n)) = false
is_zero_value (string_value s) = is_empty s
is_zero_value (other_value zero_value shown) = zero_value

abbrev pub first_some : Option ModelField → Option ModelField → Option ModelField
first_some none rest = rest
first_some (some f) rest = some f

-- `FieldByName`
unfoldable pub field_by_name : Text → List ModelField → Option ModelField
unfolding text_eq
field_by_name name [] = none
field_by_name name (f ∷ fs) =
    let rest = field_by_name name fs in if text_eq f.name name then some f else rest

module _ (to_lower : ℕ → ℕ) where
  -- The first field with `primaryKey` in its tag
  unfoldable pub tagged_field : List ModelField → Option ModelField
  unfolding contains
  tagged_field [] = none
  tagged_field (f ∷ fs) =
      let rest = tagged_field fs in
      if contains (map to_lower f.gorm_tag) (codes "primarykey") then some f else rest

  unfoldable pub primary_field : List ModelField → Option ModelField
  unfolding tagged_field field_by_name
  primary_field fs = first_some (tagged_field fs) (
      first_some (field_by_name (codes "ID") fs)
        (first_some (field_by_name (codes "Id") fs) (field_by_name (codes "id") fs)))

  abbrev value_unless_zero : Option ModelField → Option FieldValue
  value_unless_zero none = none
  value_unless_zero (some f) = if is_zero_value f.held then none else some f.held

  -- `_ExtractPrimaryKey`
  unfoldable pub extract_primary_key : List ModelField → Option FieldValue
  unfolding primary_field
  extract_primary_key fs = value_unless_zero (primary_field fs)

-- The field that holds the key in both structs, of the same type
abbrev both_fields : Option ModelField → Option ModelField → Option (ModelField × ModelField)
both_fields (some f) (some g) = some (f, g)
both_fields none g = none
both_fields (some f) none = none

abbrev pub first_pair :
    Option (ModelField × ModelField)
    → Option (ModelField × ModelField)
    → Option (ModelField × ModelField)
first_pair none rest = rest
first_pair (some x) rest = some x

unfoldable pub named_pair :
    Text → List ModelField → List ModelField → Option (ModelField × ModelField)
unfolding field_by_name
named_pair name src dst = both_fields (field_by_name name src) (field_by_name name dst)

abbrev with_tagged :
    Option ModelField
    → List ModelField
    → Option (ModelField × ModelField)
    → Option (ModelField × ModelField)
unfolding field_by_name
with_tagged none dst rest = rest
with_tagged (some f) dst rest = both_fields (some f) (field_by_name f.name dst)

-- The two searches of `_CopyPrimaryKey`
unfoldable pub key_pair :
    (ℕ → ℕ) → List ModelField → List ModelField → Option (ModelField × ModelField)
unfolding with_tagged tagged_field named_pair
key_pair to_lower src dst = with_tagged (tagged_field to_lower src) dst (
    first_pair (named_pair (codes "ID") src dst)
      (first_pair (named_pair (codes "Id") src dst) (named_pair (codes "id") src dst)))

-- The kinds of the `switch`
abbrev pub is_copied : FieldValue → Bool
is_copied (other_value zero_value shown) = false
is_copied _ = true

abbrev pub set_held : FieldValue → ModelField → ModelField
set_held v f = record f { held = v }

unfoldable pub set_field : Text → FieldValue → List ModelField → List ModelField
unfolding text_eq
set_field name v [] = []
set_field name v (f ∷ fs) =
    let rest = set_field name v fs in if text_eq f.name name then set_held v f ∷ fs else f ∷ rest

abbrev copy_pair : Option (ModelField × ModelField) → List ModelField → List ModelField
unfolding set_field
copy_pair none dst = dst
copy_pair (some (f, g)) dst = if is_copied f.held then set_field g.name f.held dst else dst

-- `_CopyPrimaryKey`
unfoldable pub copy_primary_key : (ℕ → ℕ) → List ModelField → List ModelField → List ModelField
unfolding copy_pair key_pair
copy_primary_key to_lower src dst = copy_pair (key_pair to_lower src dst) dst

field_by_name-name :
    (n : Text) (fs : List ModelField) (f : ModelField) → field_by_name n fs ≡ some f → f.name ≡ n
unfolding field_by_name
field_by_name-name n [] f h = absurd (cc h)
field_by_name-name n (x ∷ fs) f h =
    ground (arith, h, field_by_name-name n fs f, text_eq_iff x.name n)

field_by_name-set_field :
    (n m : Text) (v : FieldValue) (fs : List ModelField)
    → text_eq m n ≡ false
    → field_by_name m (set_field n v fs) ≡ field_by_name m fs
unfolding field_by_name set_field
field_by_name-set_field n m v [] h = refl
field_by_name-set_field n m v (f ∷ fs) h = ground (
  arith,
  field_by_name-set_field n m v fs h,
  text_eq_iff f.name n,
  text_eq_iff f.name m,
  text_eq_refl n,
  text_eq_iff m n,
)

set_field-found :
    (n : Text) (v : FieldValue) (fs : List ModelField) (g : ModelField)
    → field_by_name n fs ≡ some g
    → field_by_name n (set_field n v fs) ≡ some (set_held v g)
unfolding field_by_name set_field
set_field-found n v [] g h = absurd (cc h)
set_field-found n v (f ∷ fs) g h = ground (arith, h, set_field-found n v fs g)

-- The second field of a pair is found in the second struct.
abbrev IsIn : List ModelField → Option (ModelField × ModelField) → Type 0
IsIn dst o = (f g : ModelField) → o ≡ some (f, g) → field_by_name g.name dst ≡ some g

both_fields-IsIn :
    (o : Option ModelField) (n : Text) (dst : List ModelField)
    → IsIn dst (both_fields o (field_by_name n dst))
both_fields-IsIn none n dst f g h = absurd (cc h)
both_fields-IsIn (some x) n dst f g h = elim (Option-cases (field_by_name n dst)) [
  | inl e ↦ absurd (cc (h, e))
  | inr (y, e) ↦
      let same : y ≡ g = cc (h, e) in
      let found : field_by_name n dst ≡ some g = e ∙ ap some same in
      subst (λ name. field_by_name name dst ≡ some g) (sym (field_by_name-name n dst g found)) found
]

first_pair-IsIn :
    (dst : List ModelField) (a b : Option (ModelField × ModelField))
    → IsIn dst a
    → IsIn dst b
    → IsIn dst (first_pair a b)
first_pair-IsIn dst none b h k = k
first_pair-IsIn dst (some x) b h k = h

named_pair-IsIn : (src dst : List ModelField) (name : Text) → IsIn dst (named_pair name src dst)
unfolding named_pair
named_pair-IsIn src dst name = both_fields-IsIn (field_by_name name src) name dst

key_pair-IsIn :
    (to_lower : ℕ → ℕ) (src dst : List ModelField) → IsIn dst (key_pair to_lower src dst)
unfolding key_pair with_tagged
key_pair-IsIn to_lower src dst = elim (Option-cases (tagged_field to_lower src)) [
  | inl e ↦ rw (e) (
      first_pair-IsIn dst _ _ (named_pair-IsIn src dst (codes "ID")) (
        first_pair-IsIn dst _ _ (named_pair-IsIn src dst (codes "Id"))
          (named_pair-IsIn src dst (codes "id"))))
  | inr (x, e) ↦ rw (e) (both_fields-IsIn (some x) x.name dst)
]

-- Where the two searches find the key of both structs, of a signed, an unsigned or a string kind, the copy
-- leaves the first struct's key in the second one, and every other field of it as it was.
pub copy_primary_key-field_by_name :
    (to_lower : ℕ → ℕ) (src dst : List ModelField) (f g : ModelField)
    → key_pair to_lower src dst ≡ some (f, g)
    → is_copied f.held ≡ true
    → (field_by_name g.name (copy_primary_key to_lower src dst) ≡ some (set_held f.held g))
      × ((m : Text)
          → text_eq m g.name ≡ false
          → field_by_name m (copy_primary_key to_lower src dst) ≡ field_by_name m dst)
unfolding copy_primary_key
copy_primary_key-field_by_name to_lower src dst f g h c =
    rw (h, c)
      (
        set_field-found g.name f.held dst g (key_pair-IsIn to_lower src dst f g h),
        λ m. field_by_name-set_field g.name m f.held dst,
      )
