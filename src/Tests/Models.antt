-- ===== src/Tests/Models.antt =====
-- The theorems on tags, columns and keys at fixed inputs.
use goth_scaffold.Prelude.{
  ◌==◌, ◌≡◌, refl, ◌↔◌, Text, codes, [], ◌∷◌, All, Option, none, some, Result, ok, err,
  if◌then◌else◌,
}
use goth_scaffold.Models.Lengths.{
  StructField, LenValidationError, len_error, validate_column_length, FieldFits, FirstTooLong,
  validate_column_length-FirstTooLong,
}
use goth_scaffold.Models.Values.{Json}

abbrev short_field : StructField
short_field = record {
  name = codes "Name";
  gorm_tag = codes "column:name;size:2";
  str_value = some (codes "ab");
}

abbrev long_field : StructField
long_field = record {
  name = codes "Title";
  gorm_tag = codes "size:2";
  str_value = some (codes "abc");
}

-- The second field is the first one that is too long.
shown :
    validate_column_length (some (short_field ∷ long_field ∷ []))
    ≡ some (record { field = codes "Title"; message = codes "exceeds maximum length of 2" })
unfolding validate_column_length len_error
shown = refl

validate_column_length-FirstTooLong_example :
    ((validate_column_length (some (short_field ∷ long_field ∷ [])) ≡ none)
      ↔ All FieldFits (short_field ∷ long_field ∷ []))
    × ((e : LenValidationError)
        → validate_column_length (some (short_field ∷ long_field ∷ [])) ≡ some e
        → FirstTooLong (short_field ∷ long_field ∷ []) e)
validate_column_length-FirstTooLong_example =
    validate_column_length-FirstTooLong (short_field ∷ long_field ∷ [])

-- A format with one sign before the text of a value, and two before a string
abbrev unmarshal_bare : Text → Result Text (Option Text)
unmarshal_bare [] = err (codes "no value")
unmarshal_bare (c ∷ s) = if c == b'=' then ok (some s) else err (codes "no value")

abbrev unmarshal_quoted : Text → Result Text Text
unmarshal_quoted [] = err (codes "no string")
unmarshal_quoted (c ∷ []) = err (codes "no string")
unmarshal_quoted (c ∷ d ∷ s) = ok s

abbrev bare : Json Text Text
bare = record {
  marshal = λ s. b'=' ∷ s;
  unmarshal = unmarshal_bare;
  unmarshal_string = unmarshal_quoted;
  unsupported = codes "unsupported type";
}

abbrev quote : Text → Text
quote s = b'"' ∷ b'=' ∷ s
