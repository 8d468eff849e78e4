-- ===== src/Helpers/Countries.antt =====
-- app/helpers/validation.go: the check of country codes and the two conversions. A text is its bytes.
use goth_scaffold.Prelude.{
  ◌≡◌, refl, Text, text_eq, text_eq_iff, is_empty, length, any, all, Bool, true, false, not, ◌&&◌,
  if◌then◌else◌, ◌==◌, List, [], ◌∷◌, arith,
}
use goth_scaffold.Helpers.Tables.{valid_codes, alpha3_table, alpha2_table}

-- The lookup of a map, which is the empty text on a missing key
abbrev pub value_at : List (Text × Text) → Text → Text
unfolding text_eq
value_at [] key = []
value_at ((k, v) ∷ rest) key = if text_eq k key then v else value_at rest key

unfoldable pub validate_country_code : Text → Bool
unfolding valid_codes text_eq
validate_country_code code =
    if not (length code == 3) then false else any (λ k. text_eq k code) valid_codes

unfoldable pub alpha3_to_alpha2 : Text → Text
unfolding alpha3_table value_at
alpha3_to_alpha2 alpha3 = if not (length alpha3 == 3) then [] else value_at alpha3_table alpha3

unfoldable pub alpha2_to_alpha3 : Text → Text
unfolding alpha2_table value_at
alpha2_to_alpha3 alpha2 = if not (length alpha2 == 2) then [] else value_at alpha2_table alpha2

-- What holds of each key holds of a key that is found.
any-all :
    (p : Text → Bool) (ks : List Text) (key : Text)
    → all p ks ≡ true
    → any (λ k. text_eq k key) ks ≡ true
    → p key ≡ true
any-all p [] key h found = absurd (cc found)
any-all p (k ∷ ks) key h found = ground (arith, any-all p ks key, text_eq_iff k key)

value_at-all :
    (p : Text → Bool) (t : List (Text × Text)) (key : Text)
    → all (λ kv. p kv.0) t ≡ true
    → is_empty (value_at t key) ≡ false
    → p key ≡ true
unfolding value_at
value_at-all p [] key h found = absurd (cc found)
value_at-all p ((k, v) ∷ rest) key h found =
    ground (arith, value_at-all p rest key, text_eq_iff k key)

alpha3_survives : Text → Bool
unfolding text_eq
alpha3_survives code =
    not (is_empty (alpha3_to_alpha2 code))
    && text_eq (alpha2_to_alpha3 (alpha3_to_alpha2 code)) code

alpha2_survives : Text → Bool
unfolding text_eq
alpha2_survives code = text_eq (alpha3_to_alpha2 (alpha2_to_alpha3 code)) code

valid_codes-survive : all alpha3_survives valid_codes ≡ true
unfolding alpha3_survives alpha2_to_alpha3 alpha3_to_alpha2 valid_codes alpha3_table alpha2_table
    text_eq value_at
valid_codes-survive = refl

alpha3_table-valid : all (λ kv. validate_country_code kv.0) alpha3_table ≡ true
unfolding validate_country_code valid_codes alpha3_table text_eq
alpha3_table-valid = refl

alpha2_table-survive : all (λ kv. alpha2_survives kv.0) alpha2_table ≡ true
unfolding alpha2_survives alpha2_to_alpha3 alpha3_to_alpha2 alpha3_table alpha2_table text_eq
    value_at
alpha2_table-survive = refl

text_eq-eq : (a b : Text) → text_eq a b ≡ true → a ≡ b
text_eq-eq a b h = (text_eq_iff a b).0 h

passed_guard : (a b : Bool) → (if not a then false else b) ≡ true → b ≡ true
passed_guard a b h = ground arith

passed_length :
    (a : Bool) (t : Text) → is_empty (if not a then [] else t) ≡ false → is_empty t ≡ false
passed_length true t h = h
passed_length false t h = absurd (cc h)

both_true : (a b : Bool) → (not a && b) ≡ true → (a ≡ false) × (b ≡ true)
both_true a b h = (ground arith, ground arith)

validate_country_code-survives :
    (code : Text) → validate_country_code code ≡ true → alpha3_survives code ≡ true
unfolding validate_country_code
validate_country_code-survives code h =
    any-all alpha3_survives valid_codes code valid_codes-survive
      (passed_guard (length code == 3) (any (λ k. text_eq k code) valid_codes) h)

alpha3_to_alpha2-validate :
    (code : Text) → is_empty (alpha3_to_alpha2 code) ≡ false → validate_country_code code ≡ true
unfolding alpha3_to_alpha2
alpha3_to_alpha2-validate code h =
    value_at-all validate_country_code alpha3_table code alpha3_table-valid
      (passed_length (length code == 3) (value_at alpha3_table code) h)

alpha2_to_alpha3-survives :
    (code : Text) → is_empty (alpha2_to_alpha3 code) ≡ false → alpha2_survives code ≡ true
unfolding alpha2_to_alpha3
alpha2_to_alpha3-survives code h =
    value_at-all alpha2_survives alpha2_table code alpha2_table-survive
      (passed_length (length code == 2) (value_at alpha2_table code) h)

alpha2_survives-eq :
    (code : Text) → alpha2_survives code ≡ true → alpha3_to_alpha2 (alpha2_to_alpha3 code) ≡ code
unfolding alpha2_survives
alpha2_survives-eq code h = (text_eq_iff (alpha3_to_alpha2 (alpha2_to_alpha3 code)) code).0 h

alpha3_survives-eq :
    (code : Text)
    → alpha3_survives code ≡ true
    → (is_empty (alpha3_to_alpha2 code) ≡ false) × (alpha2_to_alpha3 (alpha3_to_alpha2 code) ≡ code)
unfolding alpha3_survives
alpha3_survives-eq code h =
    let back = alpha2_to_alpha3 (alpha3_to_alpha2 code) in
    let both = both_true (is_empty (alpha3_to_alpha2 code)) (text_eq back code) h in
    (both.0, (text_eq_iff back code).0 both.1)

same_test : (a b : Bool) → (a ≡ true → b ≡ false) → (b ≡ false → a ≡ true) → a ≡ not b
same_test true b f g = rw (f refl) refl
same_test false true f g = refl
same_test false false f g = g refl

-- ValidateCountryCode accepts exactly the codes that CountryCodeAlpha3ToAlpha2 knows; a code of
-- three letters that it accepts, and a code of two letters that CountryCodeAlpha2ToAlpha3 knows,
-- come back from the other form.
pub alpha2_to_alpha3-alpha3_to_alpha2 :
    (code alpha3 alpha2 : Text)
    → validate_country_code alpha3 ≡ true
    → is_empty (alpha2_to_alpha3 alpha2) ≡ false
    → (validate_country_code code ≡ not (is_empty (alpha3_to_alpha2 code)))
      × (alpha2_to_alpha3 (alpha3_to_alpha2 alpha3) ≡ alpha3)
      × (alpha3_to_alpha2 (alpha2_to_alpha3 alpha2) ≡ alpha2)
alpha2_to_alpha3-alpha3_to_alpha2 code alpha3 alpha2 h k = (
  same_test (validate_country_code code) (is_empty (alpha3_to_alpha2 code))
      (λ e. (alpha3_survives-eq code (validate_country_code-survives code e)).0)
      (alpha3_to_alpha2-validate code),
  (alpha3_survives-eq alpha3 (validate_country_code-survives alpha3 h)).1,
  alpha2_survives-eq alpha2 (alpha2_to_alpha3-survives alpha2 k),
)
