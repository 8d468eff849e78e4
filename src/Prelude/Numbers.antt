-- ===== src/Prelude/Numbers.antt =====
-- What the program uses of Go's `strconv`.
use Prim.Native.Nat.{ℕ, ◌+◌, ◌-◌, ◌*◌, ◌^◌}
use mathlib.Core.Bool.{Bool, true, false, ◌&&◌, ◌||◌}
use mathlib.Core.List.{[], ◌∷◌}
use mathlib.Core.Option.{Option, none, some}
use goth_scaffold.Prelude.Tests.{◌==◌, ltb, leb, if◌then◌else◌}
use goth_scaffold.Prelude.Runes.{Text, codes, text_eq}
use goth_scaffold.Prelude.Int.{ℤ, pos, neg}

-- The digits of base 10, behind the value of those before.
unfoldable pub digits_from : ℕ → Text → Option ℕ
digits_from n [] = some n
digits_from n (c ∷ s) =
    let rest = digits_from (n * 10 + (c - b'0')) s in
    if leb b'0' c && leb c b'9' then rest else none

-- `strconv.ParseUint(s, 10, bits)`, before its bound
unfoldable pub digits : Text → Option ℕ
unfolding digits_from
digits [] = none
digits (c ∷ s) = digits_from 0 (c ∷ s)

-- A magnitude that an `int64` of this sign can have.
abbrev in_int64 : Bool → ℕ → Bool
in_int64 true n = leb n (2 ^ 63)
in_int64 false n = ltb n (2 ^ 63)

abbrev signed : Bool → ℕ → ℤ
signed true n = neg n
signed false n = pos n

abbrev int64_of : Bool → Option ℕ → Option ℤ
int64_of minus none = none
int64_of minus (some n) = if in_int64 minus n then some (signed minus n) else none

-- `strconv.ParseInt(s, 10, 64)`; an error is `none`.
unfoldable pub parse_int : Text → Option ℤ
unfolding digits
parse_int [] = none
parse_int (c ∷ s) =
    if c == b'+'
    then int64_of false (digits s)
    else if c == b'-'
    then int64_of true (digits s)
    else int64_of false (digits (c ∷ s))

-- `strconv.ParseBool`
unfoldable pub parse_bool : Text → Option Bool
unfolding text_eq
parse_bool s =
    if text_eq s (codes "1")
      || text_eq s (codes "t")
      || text_eq s (codes "T")
      || text_eq s (codes "true")
      || text_eq s (codes "TRUE")
      || text_eq s (codes "True")
    then some true
    else if text_eq s (codes "0")
        || text_eq s (codes "f")
        || text_eq s (codes "F")
        || text_eq s (codes "false")
        || text_eq s (codes "FALSE")
        || text_eq s (codes "False")
    then some false
    else none
