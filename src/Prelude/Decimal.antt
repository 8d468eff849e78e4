-- ===== src/Prelude/Decimal.antt =====
-- Go's `strconv.FormatUint` in base 10, and the reading of its digits.
use Prim.Native.Nat.{ℕ, zero, suc, ◌+◌, ◌/◌, ◌%◌, ◌≤◌}
use mathlib.Core.Path.{◌≡◌, refl, ap}
use mathlib.Core.Bool.{false}
use mathlib.Core.List.{[], ◌∷◌}
use mathlib.Core.Option.{some}
use native.Mathlib.Omega.{arith}
use goth_scaffold.Prelude.Tests.{◌==◌, if◌then◌else◌}
use goth_scaffold.Prelude.Runes.{Text, contains_char, is_empty}
use goth_scaffold.Prelude.Numbers.{digits_from}

-- `for n > 0`, with as many rounds as `n` at most: each divides `n` by ten.
unfoldable pub digits_of : ℕ → ℕ → Text → Text
digits_of zero n out = out
digits_of (suc rounds) n out =
    let more = digits_of rounds (n / 10) ((b'0' + n % 10) ∷ out) in if n == 0 then out else more

-- `strconv.FormatUint(n, 10)`
unfoldable pub format_uint : ℕ → Text
unfolding digits_of
format_uint n = if n == 0 then b'0' ∷ [] else digits_of n n []

digits_from-digits_of :
    (rounds n : ℕ) (out : Text)
    → n ≤ rounds
    → digits_from 0 (digits_of rounds n out) ≡ digits_from n out
unfolding digits_of digits_from
digits_from-digits_of zero n out h = ap (λ m. digits_from m out) (omega arith)
digits_from-digits_of (suc rounds) n out h =
    ground (arith, digits_from-digits_of rounds (n / 10) ((b'0' + n % 10) ∷ out))

-- The digits are read back as the number.
pub digits_from-format_uint : (n : ℕ) → digits_from 0 (format_uint n) ≡ some n
unfolding format_uint digits_from
digits_from-format_uint n = ground (arith, digits_from-digits_of n n [])

contains-digits_of :
    (rounds n : ℕ) (out : Text)
    → contains_char b':' out ≡ false
    → contains_char b':' (digits_of rounds n out) ≡ false
unfolding digits_of
contains-digits_of zero n out h = h
contains-digits_of (suc rounds) n out h =
    ground (arith, contains-digits_of rounds (n / 10) ((b'0' + n % 10) ∷ out))

-- No digit is a colon.
pub contains-format_uint : (n : ℕ) → contains_char b':' (format_uint n) ≡ false
unfolding format_uint
contains-format_uint n = ground (arith, contains-digits_of n n [])

is_empty-digits_of :
    (rounds n : ℕ) (out : Text) → is_empty out ≡ false → is_empty (digits_of rounds n out) ≡ false
unfolding digits_of
is_empty-digits_of zero n out h = h
is_empty-digits_of (suc rounds) n out h =
    ground (arith, is_empty-digits_of rounds (n / 10) ((b'0' + n % 10) ∷ out))

-- There is a digit.
pub is_empty-format_uint : (n : ℕ) → is_empty (format_uint n) ≡ false
unfolding format_uint digits_of
is_empty-format_uint zero = refl
is_empty-format_uint (suc n) =
    ground (arith, is_empty-digits_of n (suc n / 10) ((b'0' + suc n % 10) ∷ []) refl)
