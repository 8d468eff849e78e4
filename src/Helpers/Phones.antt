-- ===== src/Helpers/Phones.antt =====
-- app/helpers/validation.go: the check of phone numbers, and what the numbers that it accepts are.
use goth_scaffold.Prelude.{
  ℕ, zero, suc, ◌+◌, ◌-◌, ◌≤◌, ◌≡◌, refl, Text, is_empty, contains_char, length, leb, Bool, true,
  false, not, ◌&&◌, ◌||◌, if◌then◌else◌, ◌==◌, List, [], ◌∷◌, arith, all, ==_iff, Bool-cases, inl,
  inr,
}

-- What the pattern is made of: `[...]?`, and `[0-9]` from so many times to so many
pub data Piece : Type 0 where
  optional : Text → Piece
  digit_run : ℕ → ℕ → Piece

abbrev pub is_phone_digit : ℕ → Bool
is_phone_digit c = leb b'0' c && leb c b'9'

-- `[0-9]{least,most}` in front of what `rest` accepts
unfoldable pub digits_then : (Text → Bool) → ℕ → ℕ → Text → Bool
digits_then rest least zero s = least == 0 && rest s
digits_then rest least (suc most) [] = least == 0 && rest []
digits_then rest least (suc most) (c ∷ s) =
    least == 0 && rest (c ∷ s) || is_phone_digit c && digits_then rest (least - 1) most s

-- Whether the pieces match the whole text
unfoldable pub matches : List Piece → Text → Bool
unfolding digits_then
matches [] s = is_empty s
matches (optional cs ∷ ps) [] = matches ps []
matches (optional cs ∷ ps) (c ∷ s) = matches ps (c ∷ s) || contains_char c cs && matches ps s
matches (digit_run least most ∷ ps) s = digits_then (matches ps) least most s

-- `[-\s\.]`
abbrev pub separators : Text
separators = b'-' ∷ 9 ∷ 10 ∷ 12 ∷ 13 ∷ 32 ∷ b'.' ∷ []

abbrev pub phone_pattern : List Piece
phone_pattern =
    optional (b'+' ∷ [])
    ∷ optional (b'(' ∷ [])
    ∷ digit_run 1 4
    ∷ optional (b')' ∷ [])
    ∷ optional separators
    ∷ optional (b'(' ∷ [])
    ∷ digit_run 1 4
    ∷ optional (b')' ∷ [])
    ∷ optional separators
    ∷ digit_run 1 4
    ∷ optional separators
    ∷ digit_run 0 9
    ∷ []

abbrev pub digit_count : Text → ℕ
digit_count [] = 0
digit_count (c ∷ s) = if is_phone_digit c then suc (digit_count s) else digit_count s

unfoldable pub validate_phone_number : Text → Bool
unfolding matches
validate_phone_number phone =
    if is_empty phone
    then false
    else if not (matches phone_pattern phone)
    then false
    else leb 7 (digit_count phone) && leb (digit_count phone) 15

-- The most characters besides digits that the pieces match
abbrev pub others : List Piece → ℕ
others [] = 0
others (optional cs ∷ ps) = suc (others ps)
others (digit_run least most ∷ ps) = others ps

digits_then-length :
    (rest : Text → Bool) (n : ℕ)
    → ((s : Text) → rest s ≡ true → length s ≤ digit_count s + n)
    → (least most : ℕ) (s : Text) → digits_then rest least most s ≡ true
    → length s ≤ digit_count s + n
unfolding digits_then
digits_then-length rest n bound least zero s h = ground (arith, bound s)
digits_then-length rest n bound least (suc most) [] h = ground (arith, bound [])
digits_then-length rest n bound least (suc most) (c ∷ s) h =
    ground (arith, bound (c ∷ s), digits_then-length rest n bound (least - 1) most s)

matches-length :
    (ps : List Piece) (s : Text) → matches ps s ≡ true → length s ≤ digit_count s + others ps
unfolding matches
matches-length [] [] h = omega arith
matches-length [] (c ∷ s) h = absurd (cc h)
matches-length (optional cs ∷ ps) [] h = omega arith
matches-length (optional cs ∷ ps) (c ∷ s) h =
    ground (arith, matches-length ps (c ∷ s), matches-length ps s)
matches-length (digit_run least most ∷ ps) s h =
    digits_then-length (matches ps) (others ps) (matches-length ps) least most s h

abbrev pub is_allowed_rune : ℕ → Bool
is_allowed_rune c = is_phone_digit c || contains_char c (b'+' ∷ b'(' ∷ b')' ∷ separators)

abbrev allowed_only : List Piece → Bool
allowed_only [] = true
allowed_only (optional cs ∷ ps) = all is_allowed_rune cs && allowed_only ps
allowed_only (digit_run least most ∷ ps) = allowed_only ps

digits_then-allowed :
    (rest : Text → Bool)
    → ((s : Text) → rest s ≡ true → all is_allowed_rune s ≡ true)
    → (least most : ℕ) (s : Text) → digits_then rest least most s ≡ true
    → all is_allowed_rune s ≡ true
unfolding digits_then
digits_then-allowed rest allowed least zero s h = ground (arith, allowed s)
digits_then-allowed rest allowed least (suc most) [] h = refl
digits_then-allowed rest allowed least (suc most) (c ∷ s) h =
    ground (arith, allowed (c ∷ s), digits_then-allowed rest allowed (least - 1) most s)

contains_char-all :
    (p : ℕ → Bool) (c : ℕ) (cs : Text) → all p cs ≡ true → contains_char c cs ≡ true → p c ≡ true
contains_char-all p c [] h k = absurd (cc k)
contains_char-all p c (d ∷ cs) h k = ground (arith, contains_char-all p c cs, ==_iff d c)

allowed_optional : (a b : Bool) → (a && b) ≡ true → (a ≡ true) × (b ≡ true)
allowed_optional a b h = (ground arith, ground arith)

taken_optional : (a b c : Bool) → a ≡ false → (a || b && c) ≡ true → (b ≡ true) × (c ≡ true)
taken_optional a b c e h = (ground arith, ground arith)

and_true : (a b : Bool) → a ≡ true → b ≡ true → (a && b) ≡ true
and_true a b h k = ground arith

matches-allowed :
    (ps : List Piece) (s : Text)
    → allowed_only ps ≡ true
    → matches ps s ≡ true
    → all is_allowed_rune s ≡ true
unfolding matches
matches-allowed [] [] a h = refl
matches-allowed [] (c ∷ s) a h = absurd (cc h)
matches-allowed (optional cs ∷ ps) [] a h = refl
matches-allowed (optional cs ∷ ps) (c ∷ s) a h =
    let parts = allowed_optional (all is_allowed_rune cs) (allowed_only ps) a in
    let allowed = contains_char-all is_allowed_rune c cs parts.0 in
    elim (Bool-cases (matches ps (c ∷ s))) [
      | inl q ↦ matches-allowed ps (c ∷ s) parts.1 q
      | inr q ↦
          let taken = taken_optional (matches ps (c ∷ s)) (contains_char c cs) (matches ps s) q h in
          and_true (is_allowed_rune c) (all is_allowed_rune s) (allowed taken.0)
            (matches-allowed ps s parts.1 taken.1)
    ]
matches-allowed (digit_run least most ∷ ps) s a h =
    digits_then-allowed (matches ps) (λ t k. matches-allowed ps t a k) least most s h

phone_checks :
    (empty matched : Bool) (n : ℕ)
    → (if empty then false else if not matched then false else leb 7 n && leb n 15) ≡ true
    → (matched ≡ true) × (7 ≤ n) × (n ≤ 15)
phone_checks empty matched n h = (ground arith, ground arith, ground arith)

-- A phone number that is accepted has from 7 to 15 digits, at most 23 characters, and none
-- besides digits, white space, a point, a hyphen, a plus sign and parentheses.
pub validate_phone_number-bounds :
    (phone : Text)
    → validate_phone_number phone ≡ true
    → (7 ≤ digit_count phone)
      × (digit_count phone ≤ 15)
      × (length phone ≤ 23)
      × (all is_allowed_rune phone ≡ true)
unfolding validate_phone_number
validate_phone_number-bounds phone h =
    let checks =
      phone_checks (is_empty phone) (matches phone_pattern phone) (digit_count phone) h in
    let size = matches-length phone_pattern phone checks.0 in
    (
      checks.1,
      checks.2,
      omega (arith, size, checks.2),
      matches-allowed phone_pattern phone refl checks.0,
    )
