-- ===== src/Models/Times.antt =====
-- app/models/helper.go: `TimeOfDay` as a value of a column and in JSON, the zero date, and the application
-- that a credential names.
use goth_scaffold.Prelude.{
  ℕ, suc, ◌+◌, ◌-◌, ◌*◌, ◌/◌, ◌%◌, ◌≤◌, ◌≡◌, refl, ap, Text, codes, text_eq, is_empty, drop_while,
  trim_right, take, length, length-take_le, map, ltb, leb, ◌==◌, Bool, false, ◌&&◌, ◌||◌,
  if◌then◌else◌, List, [], ◌∷◌, Option, none, some, Result, ok, err, arith, Bool-cases, inl, inr,
  ◌⊎◌,
}
use goth_scaffold.Models.Tags.{cut_prefix}

-- Go's `time` at the layout 15:04:05; `T` is `time.Time`, and `zero_time` its zero.
pub record Clock (T E : Type 0) : Type 0 where
  pub zero_time : T
  pub is_zero_time : T → Bool
  pub parse_time : Text → Result E T
  pub format_time : T → Text
  pub invalid_value : E

-- What a driver hands to `TimeOfDay.Scan`
pub data TimeValue (T : Type 0) : Type 0 where
  nil_time other_time : TimeValue T
  time_value : T → TimeValue T
  bytes_time string_time : Text → TimeValue T

abbrev pub midnight_text : Text
midnight_text = codes "00:00:00"

module _ {T E : Type 0} (d : Clock T E) where
  abbrev pub store_time : Result E T → T → Option E × T
  store_time (ok t) old = (none, t)
  store_time (err e) old = (some e, old)

  -- `_ParseString`, on the value that was there
  abbrev pub parse_time_string : Text → T → Option E × T
  parse_time_string text old =
      if is_empty text then (none, d.zero_time) else store_time (d.parse_time text) old

  -- `Scan`
  unfoldable pub scan_time : TimeValue T → T → Option E × T
  scan_time nil_time old = (none, d.zero_time)
  scan_time other_time old = (some d.invalid_value, old)
  scan_time (time_value t) old = (none, t)
  scan_time (bytes_time text) old = parse_time_string text old
  scan_time (string_time text) old = parse_time_string text old

  -- `Value` and `MarshalText`
  abbrev pub time_text : T → Text
  time_text t = if d.is_zero_time t then midnight_text else d.format_time t

  -- `MarshalJSON`, with `json.Marshal` of a string
  abbrev pub marshal_time : (Text → Text) → T → Text
  marshal_time quote t = quote (time_text t)

  -- `strings.Trim` of double quotes
  abbrev pub trim_quotes : Text → Text
  unfolding drop_while trim_right
  trim_quotes s = trim_right (λ c. c == b'"') (drop_while (λ c. c == b'"') s)

  -- `UnmarshalJSON`
  unfoldable pub unmarshal_time : Text → T → Option E × T
  unfolding trim_quotes text_eq
  unmarshal_time text old =
      let s = trim_quotes text in
      if text_eq s (codes "null") || is_empty s
      then (none, d.zero_time)
      else parse_time_string s old

  -- What is relied on of `time`: a text that it has written, or that is midnight's, is read as a time that has this
  -- text and is not the zero time.
  pub record IsClock : Type 0 where
    pub reread :
        (t : T)
        → (u : T) × (d.parse_time (d.format_time t) ≡ ok u)
          × (d.format_time u ≡ d.format_time t)
          × (d.is_zero_time u ≡ false)
    pub midnight :
        (u : T) × (d.parse_time midnight_text ≡ ok u)
        × (d.format_time u ≡ midnight_text)
        × (d.is_zero_time u ≡ false)
    pub written : (t : T) → is_empty (d.format_time t) ≡ false

-- `IsZeroDate`; `before_third` asks for a time before the third of January of the year 1.
abbrev pub is_zero_date : {T : Type 0} → (T → Bool) → T → Bool
is_zero_date before_third t = before_third t

-- A digit of base 16, in lower case
abbrev pub hex_digit : ℕ → ℕ
hex_digit n = if ltb n 10 then b'0' + n else b'a' + (n - 10)

-- `hex.EncodeToString`
abbrev pub encode_hex : List ℕ → Text
encode_hex [] = []
encode_hex (b ∷ bytes) = hex_digit (b / 16) ∷ hex_digit (b % 16) ∷ encode_hex bytes

-- `strings.ToUpper`, on the digits of base 16
abbrev pub upper_hex : Text → Text
upper_hex s = map (λ c. if leb b'a' c && leb c b'f' then c - 32 else c) s

abbrev pub without_prefix : Text → Option Text → Text
without_prefix s none = s
without_prefix s (some after) = after

-- `CredentialId.AppId`; `decode` is what base64's `RawURLEncoding.DecodeString` returns, also with an error.
unfoldable pub app_id : (Text → List ℕ) → Text → Text
unfolding cut_prefix
app_id decode a =
    let decoded = decode (without_prefix a (cut_prefix a (codes "ast-"))) in
    if leb (length decoded) 16 then [] else upper_hex (encode_hex (take 16 decoded))

length-upper_hex : (s : Text) → length (upper_hex s) ≡ length s
length-upper_hex [] = refl
length-upper_hex (c ∷ s) = ap suc (length-upper_hex s)

length-encode_hex : (bytes : List ℕ) → length (encode_hex bytes) ≡ 2 * length bytes
length-encode_hex [] = omega arith
length-encode_hex (b ∷ bytes) = omega (arith, length-encode_hex bytes)

-- The identifier of the application is empty or has 32 digits.
pub length-app_id :
    (decode : Text → List ℕ) (a : Text) → (app_id decode a ≡ []) ⊎ (length (app_id decode a) ≡ 32)
unfolding app_id
length-app_id decode a =
    let decoded = decode (without_prefix a (cut_prefix a (codes "ast-"))) in
    elim (Bool-cases (leb (length decoded) 16)) [
      | inl e ↦ inl (rw e refl)
      | inr e ↦
          let long : 16 ≤ length decoded = ground arith in
          let hex = encode_hex (take 16 decoded) in
          inr (
            rw e (
              omega (
                arith,
                length-upper_hex hex,
                length-encode_hex (take 16 decoded),
                length-take_le 16 decoded long,
              )))
    ]

module _ {T E : Type 0} (d : Clock T E) (is_clock : IsClock d) where
  time_text-not_empty : (t : T) → is_empty (time_text d t) ≡ false
  time_text-not_empty t = elim (Bool-cases (d.is_zero_time t)) [
    | inl e ↦ rw e refl
    | inr e ↦ rw e (is_clock.written t)
  ]

  time_text_again :
      (t : T) → (u : T) × (d.parse_time (time_text d t) ≡ ok u) × (time_text d u ≡ time_text d t)
  time_text_again t = elim (Bool-cases (d.is_zero_time t)) [
    | inl e ↦ let (u, p, q, z) = is_clock.midnight in (u, rw e p, rw (e, z) q)
    | inr e ↦ let (u, p, q, z) = is_clock.reread t in (u, rw e p, rw (e, z) q)
  ]

  -- A time of the day that is written to a column is read back as one that is written in the same way, whatever was there before.
  pub scan_time-time_text :
      (t old : T)
      → (u : T) × (scan_time d (string_time (time_text d t)) old ≡ (none, u))
        × (scan_time d (bytes_time (time_text d t)) old ≡ (none, u))
        × (time_text d u ≡ time_text d t)
  unfolding scan_time
  scan_time-time_text t old =
      let (u, p, same) = time_text_again t in
      (u, rw (time_text-not_empty t, p) refl, rw (time_text-not_empty t, p) refl, same)
