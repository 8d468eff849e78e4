-- ===== src/Config/Struct.antt =====
-- app/conf/configuration.go: the fields of a struct as `reflect` shows them, and `loadFieldFromEnv`.
use goth_scaffold.Prelude.{
  ℕ, ◌^◌, Text, is_empty, split_on, drop_while, trim_right, parse_int, parse_bool, digits, ltb,
  Bool, true, not, ◌||◌, if◌then◌else◌, List, map, keep, Option, none, some, ℤ, pos, negsuc, ◌-◌,
}

-- What is outside: the environment, where a missing variable is the empty text, and functions of Go's
-- library; `F` is the type of floating-point numbers.
pub record Env (F : Type 0) : Type 0 where
  pub getenv : Text → Text
  pub to_upper : Text → Text
  pub is_space : ℕ → Bool
  pub parse_float : ℕ → Text → Option F

-- A field that is no struct, by its kind; a number with its bits
pub data Value (F : Type 0) : Type 0 where
  string_kind : Text → Value F
  bool_kind : Bool → Value F
  int_kind : ℕ → ℤ → Value F
  uint_kind : ℕ → ℕ → Value F
  float_kind : ℕ → F → Value F
  strings_kind : List Text → Value F
  unsupported_kind : Value F

-- The fields of a struct, each with its `yaml` tag; a value also with `CanSet()`
pub data Fields (F : Type 0) : Type 0 where
  end : Fields F
  value_field : Text → Bool → Value F → Fields F → Fields F
  struct_field : Text → Fields F → Fields F → Fields F

-- Where a field stands: first, inside the first field, or behind it
pub data Place : Type 0 where
  here : Place
  inside next : Place → Place

abbrev pub in_int_bits : ℕ → ℤ → Bool
in_int_bits bits (pos n) = ltb n (2 ^ (bits - 1))
in_int_bits bits (negsuc n) = ltb n (2 ^ (bits - 1))

abbrev pub in_uint_bits : ℕ → ℕ → Bool
in_uint_bits bits n = ltb n (2 ^ bits)

-- A parsed value that is `ok` is stored, and an error leaves the old one.
abbrev pub stored : {A B : Type 0} → (A → B) → (A → Bool) → Option A → B → B
stored f fits none old = old
stored f fits (some a) old = if fits a then f a else old

abbrev pub always : {A : Type 0} → A → Bool
always a = true

module _ {F : Type 0} (e : Env F) where
  unfoldable pub trim_part : Text → Text
  unfolding trim_right drop_while
  trim_part s = trim_right e.is_space (drop_while e.is_space s)

  unfoldable pub split_values : Text → List Text
  unfolding split_on trim_part
  split_values text = keep (λ part. not (is_empty part)) (map trim_part (split_on b',' text))

  -- The `switch` of `loadFieldFromEnv`; a number is parsed at 64 bits and then measured.
  unfoldable pub set_value : Text → Value F → Value F
  unfolding parse_int parse_bool digits split_values
  set_value text (string_kind s) = string_kind text
  set_value text (bool_kind b) = stored bool_kind always (parse_bool text) (bool_kind b)
  set_value text (int_kind bits n) =
      stored (int_kind bits) (in_int_bits bits) (parse_int text) (int_kind bits n)
  set_value text (uint_kind bits n) =
      stored (uint_kind bits) (in_uint_bits bits) (digits text) (uint_kind bits n)
  set_value text (float_kind bits x) =
      stored (float_kind bits) always (e.parse_float bits text) (float_kind bits x)
  set_value text (strings_kind values) = strings_kind (split_values text)
  set_value text unsupported_kind = unsupported_kind

  -- `loadFieldFromEnv`
  unfoldable pub load_field : Text → Bool → Value F → Value F
  unfolding set_value
  load_field env_key can_set v =
      let text = e.getenv env_key in if is_empty text || not can_set then v else set_value text v

module _ {F : Type 0} where
  -- A write through the `reflect.Value` of the field at a place
  unfoldable pub update : Place → (Bool → Value F → Value F) → Fields F → Fields F
  update here f (value_field tag can_set v rest) = value_field tag can_set (f can_set v) rest
  update (inside p) f (struct_field tag inner rest) = struct_field tag (update p f inner) rest
  update (next p) f (value_field tag can_set v rest) = value_field tag can_set v (update p f rest)
  update (next p) f (struct_field tag inner rest) = struct_field tag inner (update p f rest)
  update p f c = c
