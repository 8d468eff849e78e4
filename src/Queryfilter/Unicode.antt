-- ===== src/Queryfilter/Unicode.antt =====
-- Go's package unicode and the lower-casing of strings. `IsSpace` is written out; the tables of
-- letters, digits and lower case are a parameter that is fixed on ASCII.
use goth_scaffold.Prelude.{
  ℕ, ◌+◌, ◌<◌, Text, Bool, ◌≡◌, refl, ◌||◌, ◌&&◌, ◌==◌, leb, if◌then◌else◌, drop_while, trim_right,
}

abbrev pub within : ℕ → ℕ → ℕ → Bool
within lo hi c = leb lo c && leb c hi

abbrev pub ascii_letter : ℕ → Bool
ascii_letter c = within b'a' b'z' c || within b'A' b'Z' c

abbrev pub ascii_digit : ℕ → Bool
ascii_digit c = within b'0' b'9' c

abbrev pub ascii_lower : ℕ → ℕ
ascii_lower c = if within b'A' b'Z' c then c + 32 else c

-- `unicode.IsSpace`: the property White_Space.
unfoldable pub is_space : ℕ → Bool
is_space c =
    within 9 13 c
    || c == 32
    || c == 0x85
    || c == 0xa0
    || c == 0x1680
    || within 0x2000 0x200a c
    || c == 0x2028
    || c == 0x2029
    || c == 0x202f
    || c == 0x205f
    || c == 0x3000

-- `strings.TrimSpace`
unfoldable pub trim_space : Text → Text
unfolding is_space drop_while trim_right
trim_space s = trim_right is_space (drop_while is_space s)

-- `unicode.IsLetter`, `unicode.IsDigit` and `unicode.ToLower`, with what the Unicode tables say of
-- ASCII.
pub record Unicode : Type 0 where
  pub is_letter : ℕ → Bool
  pub is_digit : ℕ → Bool
  pub to_lower : ℕ → ℕ
  pub is_letter_ascii : (c : ℕ) → c < 128 → is_letter c ≡ ascii_letter c
  pub is_digit_ascii : (c : ℕ) → c < 128 → is_digit c ≡ ascii_digit c
  pub to_lower_ascii : (c : ℕ) → c < 128 → to_lower c ≡ ascii_lower c

-- The tables restricted to ASCII.
abbrev pub ascii : Unicode
ascii = record {
  is_letter = ascii_letter;
  is_digit = ascii_digit;
  to_lower = ascii_lower;
  is_letter_ascii = λ c h. refl;
  is_digit_ascii = λ c h. refl;
  to_lower_ascii = λ c h. refl;
}
