-- ===== src/Models/Values.antt =====
-- app/models/helper.go: `Privileges`, `Scope` and `Metadata` as values of columns, in JSON. A nil list or
-- map is `none`.
use goth_scaffold.Prelude.{
  ◌≡◌, Text, text_eq, is_empty, split_on, has_prefix, get_or, Bool, true, false, not, ◌&&◌, ◌||◌,
  if◌then◌else◌, ◌==◌, List, [], ◌∷◌, Option, none, some, Result, ok, err,
}

-- `encoding/json`, for the type of the column, where `null` is nil, and for a string
pub record Json (A E : Type 0) : Type 0 where
  pub marshal : A → Text
  pub unmarshal : Text → Result E (Option A)
  pub unmarshal_string : Text → Result E Text
  pub unsupported : E

-- What a driver hands to `Scan`
pub data DriverValue : Type 0 where
  nil_value other_kind : DriverValue
  bytes_value string_value : Text → DriverValue

module _ {A E : Type 0} (j : Json A E) where
  -- `Value` of the lists, whose JSON is bytes
  unfoldable pub value_of : Option A → DriverValue
  value_of none = nil_value
  value_of (some a) = bytes_value (j.marshal a)

  -- `Value` of `Metadata`, whose JSON is a string
  unfoldable pub metadata_value_of : Option A → DriverValue
  metadata_value_of none = nil_value
  metadata_value_of (some a) = string_value (j.marshal a)

  -- What a decoder leaves: its error, and the destination, which an error leaves alone
  abbrev store : Result E (Option A) → Option A → Option E × Option A
  store (ok x) old = (none, x)
  store (err e) old = (some e, old)

  -- `Scan` of the lists
  unfoldable pub scan : DriverValue → Option A → Option E × Option A
  scan nil_value old = (none, none)
  scan other_kind old = (some j.unsupported, old)
  scan (bytes_value text) old = store (j.unmarshal text) old
  scan (string_value text) old = store (j.unmarshal text) old

  -- `Scan` of `Metadata`
  abbrev scan_text : Text → Option A → Option E × Option A
  scan_text text old = if is_empty text then (none, none) else store (j.unmarshal text) old

  unfoldable pub scan_metadata : DriverValue → Option A → Option E × Option A
  scan_metadata nil_value old = (none, none)
  scan_metadata other_kind old = (some j.unsupported, old)
  scan_metadata (bytes_value text) old = scan_text text old
  scan_metadata (string_value text) old = scan_text text old

  abbrev store_wrapped : E → Result E Text → Option A → Option E × Option A
  store_wrapped raw_err (err e) old = (some raw_err, old)
  store_wrapped raw_err (ok wrapped) old = store (j.unmarshal wrapped) old

  abbrev store_or_unwrap : Text → Result E (Option A) → Option A → Option E × Option A
  store_or_unwrap text (ok x) old = (none, x)
  store_or_unwrap text (err e) old = store_wrapped e (j.unmarshal_string text) old

  -- `_UnmarshalCQLJSON`
  unfoldable pub unmarshal_cql_json : Text → Option A → Option E × Option A
  unmarshal_cql_json text old =
      if is_empty text then (none, none) else store_or_unwrap text (j.unmarshal text) old

  -- `MarshalCQL` of a text column; nil is no bytes.
  unfoldable pub marshal_cql : Option A → Text
  marshal_cql none = []
  marshal_cql (some a) = j.marshal a

  abbrev store_unquoted : Result E Text → Option A → Option E × Option A
  store_unquoted (err e) old = (some e, old)
  store_unquoted (ok text) old = store (j.unmarshal text) old

  abbrev is_quoted : Text → Bool
  is_quoted [] = false
  is_quoted (c ∷ text) = c == b'"'

  -- `UnmarshalJSON`
  unfoldable pub unmarshal_json : Text → Option A → Option E × Option A
  unfolding text_eq
  unmarshal_json body old =
      if is_empty body || text_eq body (b'"' ∷ b'"' ∷ [])
      then (none, old)
      else if is_quoted body
      then store_unquoted (j.unmarshal_string body) old
      else store (j.unmarshal body) old

  -- The JSON of the type's values is not a string, and each is read back; `quote` writes a text as a JSON
  -- string, which is no value of the type.
  pub record IsJson (quote : Text → Text) : Type 0 where
    pub read_back : (a : A) → j.unmarshal (j.marshal a) ≡ ok (some a)
    pub not_empty : (a : A) → is_empty (j.marshal a) ≡ false
    pub not_quoted : (a : A) → is_quoted (j.marshal a) ≡ false
    pub unquoted : (text : Text) → j.unmarshal_string (quote text) ≡ ok text
    pub starts : (text : Text) → is_quoted (quote text) ≡ true
    pub no_value : (text : Text) → (e : E) × (j.unmarshal (quote text) ≡ err e)
    pub longer :
        (text : Text) → is_empty text ≡ false → text_eq (quote text) (b'"' ∷ b'"' ∷ []) ≡ false

-- `Validate`
unfoldable pub validate_privilege : List Text → Text → Bool
unfolding split_on has_prefix
validate_privilege [] privilege = false
validate_privilege (p ∷ ps) privilege =
    let path = get_or (split_on b':' p) 0 [] in
    not (is_empty path) && has_prefix privilege path || validate_privilege ps privilege
