-- ===== src/Models/Lengths.antt =====
-- app/models/helper.go: `ValidateColumnLength`, on the fields of a struct in their order.
use goth_scaffold.Prelude.{
  ℕ, ltb, ◌≤◌, ◌<◌, suc, zero, if_rule, subst, ap, ap₂, ◌≡◌, refl, ◌↔◌, Text, codes, if◌then◌else◌,
  List, [], ◌∷◌, ◌++◌, All, length, is_empty, ℤ, pos, negsuc, parse_int, format_uint, Option, none,
  some, arith, Option-cases, inl, inr,
}
use goth_scaffold.Models.Tags.{gorm_tag_value}

-- `reflect.StructField` and its value: the text of a string, or of a pointer to one that is not nil
pub record StructField : Type 0 where
  pub name : Text
  pub gorm_tag : Text
  pub str_value : Option Text

-- `LenValidationError`
pub record LenValidationError : Type 0 where
  pub field : Text
  pub message : Text

-- What `strconv.Atoi` gives, where it is positive
abbrev pub positive : Option ℤ → Option ℕ
positive none = none
positive (some (pos zero)) = none
positive (some (pos (suc n))) = some (suc n)
positive (some (negsuc n)) = none

-- The declared size, where the loop does not continue before it has one
unfoldable pub declared_size : StructField → Option ℕ
unfolding gorm_tag_value parse_int
declared_size f =
    let size_str = gorm_tag_value f.gorm_tag (codes "size") in
    if is_empty f.gorm_tag
    then none
    else if is_empty size_str
    then none
    else positive (parse_int size_str)

-- The name that the error shows
unfoldable pub column_name : StructField → Text
unfolding gorm_tag_value
column_name f =
    let column = gorm_tag_value f.gorm_tag (codes "column") in
    if is_empty column then f.name else column

unfoldable pub len_error : StructField → ℕ → LenValidationError
unfolding column_name format_uint
len_error f size = record {
  field = column_name f;
  message = codes "exceeds maximum length of " ++ format_uint size;
}

abbrev pub check_length : StructField → Option ℕ → Option Text → Option LenValidationError
check_length f none value = none
check_length f (some size) none = none
check_length f (some size) (some value) =
    if ltb size (length value) then some (len_error f size) else none

abbrev pub or_next :
    Option LenValidationError → Option LenValidationError → Option LenValidationError
or_next none rest = rest
or_next (some e) rest = some e

-- The loop over the fields
unfoldable pub validate_fields : List StructField → Option LenValidationError
unfolding declared_size
validate_fields [] = none
validate_fields (f ∷ fs) =
    or_next (check_length f (declared_size f) f.str_value) (validate_fields fs)

-- `ValidateColumnLength`; a nil pointer, and what is no struct, has no fields to check.
unfoldable pub validate_column_length : Option (List StructField) → Option LenValidationError
unfolding validate_fields
validate_column_length none = none
validate_column_length (some fs) = validate_fields fs

-- What the declared size asks of the value
abbrev pub Fits : Option ℕ → Option Text → Type 0
Fits none value = Unit
Fits (some n) none = Unit
Fits (some n) (some text) = length text ≤ n

abbrev pub FieldFits : StructField → Type 0
FieldFits f = Fits (declared_size f) f.str_value

-- The first field that does not fit
pub record FirstTooLong (fs : List StructField) (e : LenValidationError) : Type 0 where
  pub before : List StructField
  pub at : StructField
  pub behind : List StructField
  pub split : fs ≡ before ++ at ∷ behind
  pub fitting : All FieldFits before
  pub size : ℕ
  pub value : Text
  pub is_size : declared_size at ≡ some size
  pub is_value : at.str_value ≡ some value
  pub too_long : size < length value
  pub shown : e ≡ len_error at size

-- A verdict of the loop
Judged : List StructField → Option LenValidationError → Type 0
Judged fs none = All FieldFits fs
Judged fs (some e) = FirstTooLong fs e

first-too_long :
    (f : StructField) (fs : List StructField) (n : ℕ) (text : Text)
    → declared_size f ≡ some n
    → f.str_value ≡ some text
    → n < length text
    → FirstTooLong (f ∷ fs) (len_error f n)
first-too_long f fs n text s v h = record {
  before = [];
  at = f;
  behind = fs;
  split = refl;
  fitting = tt;
  size = n;
  value = text;
  is_size = s;
  is_value = v;
  too_long = h;
  shown = refl;
}

next-Judged :
    (f : StructField) (fs : List StructField) (r : Option LenValidationError)
    → FieldFits f
    → Judged fs r
    → Judged (f ∷ fs) r
unfolding Judged
next-Judged f fs none fits h = (fits, h)
next-Judged f fs (some e) fits h = record {
  before = f ∷ h.before;
  at = h.at;
  behind = h.behind;
  split = ap (λ l. f ∷ l) h.split;
  fitting = (fits, h.fitting);
  size = h.size;
  value = h.value;
  is_size = h.is_size;
  is_value = h.is_value;
  too_long = h.too_long;
  shown = h.shown;
}

step-Judged :
    (f : StructField) (fs : List StructField) (size : Option ℕ) (value : Option Text)
    → declared_size f ≡ size
    → f.str_value ≡ value
    → (r : Option LenValidationError) → Judged fs r
    → Judged (f ∷ fs) (or_next (check_length f size value) r)
unfolding Judged
step-Judged f fs none value s v r h = next-Judged f fs r (rw (s) tt) h
step-Judged f fs (some n) none s v r h = next-Judged f fs r (rw (s, v) tt) h
step-Judged f fs (some n) (some text) s v r h =
    if_rule (λ o. Judged (f ∷ fs) (or_next o r)) (ltb n (length text))
      (λ e. first-too_long f fs n text s v (ground arith))
      (λ e. next-Judged f fs r (rw (s, v) (ground arith)) h)

validate_fields-Judged : (fs : List StructField) → Judged fs (validate_fields fs)
unfolding Judged validate_fields
validate_fields-Judged [] = tt
validate_fields-Judged (f ∷ fs) =
    step-Judged f fs (declared_size f) f.str_value refl refl (validate_fields fs)
      (validate_fields-Judged fs)

All-middle :
    (before : List StructField) (f : StructField) (behind : List StructField)
    → All FieldFits (before ++ f ∷ behind)
    → FieldFits f
All-middle [] f behind h = h.0
All-middle (b ∷ before) f behind h = All-middle before f behind h.1

FirstTooLong-not_fitting :
    (fs : List StructField) (e : LenValidationError) → FirstTooLong fs e → All FieldFits fs → ⊥
FirstTooLong-not_fitting fs e h fits =
    let at_fits = All-middle h.before h.at h.behind (subst (All FieldFits) h.split fits) in
    let le = subst (λ X. X) (ap₂ Fits h.is_size h.is_value) at_fits in
    let lt = h.too_long in absurd (ground arith)

-- The length check gives no error exactly where every field with a positive size in its tag has
-- at most so many characters; an error is the one of the first field that has more.
pub validate_column_length-FirstTooLong :
    (fs : List StructField)
    → ((validate_column_length (some fs) ≡ none) ↔ All FieldFits fs)
      × ((e : LenValidationError) → validate_column_length (some fs) ≡ some e → FirstTooLong fs e)
unfolding validate_column_length Judged
validate_column_length-FirstTooLong fs = (
  record {
    0 = λ e. subst (Judged fs) e (validate_fields-Judged fs);
    1 = λ fits. elim (Option-cases (validate_fields fs)) [
      | inl e ↦ e
      | inr (e, h) ↦
          absurd
            (FirstTooLong-not_fitting fs e (subst (Judged fs) h (validate_fields-Judged fs)) fits)
    ];
  },
  λ e h. subst (Judged fs) h (validate_fields-Judged fs),
)
