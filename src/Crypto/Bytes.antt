-- ===== src/Crypto/Bytes.antt =====
-- app/components/crypto/crypto.go: eight big-endian bytes of a 64-bit number, and the two's
-- complement of an `int64`.
use goth_scaffold.Prelude.{
  ℕ, zero, suc, ◌+◌, ◌-◌, ◌*◌, ◌/◌, ◌%◌, ◌^◌, ◌<◌, ◌≡◌, refl, ◌∙◌, List, [], ◌∷◌, ◌++◌, length,
  length-append, arith, ℤ, pos, negsuc, ltb, if◌then◌else◌,
}
use native.Mathlib.Numerals.{unary_clauses}

-- `binary.BigEndian.PutUint64` at 8 bytes
unfoldable pub big_endian : ℕ → ℕ → List ℕ
big_endian zero n = []
big_endian (suc k) n = big_endian k (n / 256) ++ (n % 256 ∷ [])

-- `binary.BigEndian.Uint64`, from the value of the bytes before
unfoldable pub from_bytes : ℕ → List ℕ → ℕ
from_bytes n [] = n
from_bytes n (b ∷ bs) = from_bytes (n * 256 + b) bs

-- `uint64(id)` and `int64(n)`
unfoldable pub to_uint64 : ℤ → ℕ
to_uint64 (pos n) = n % 2 ^ 64
to_uint64 (negsuc n) = 2 ^ 64 - 1 - n % 2 ^ 64

unfoldable pub to_int64 : ℕ → ℤ
to_int64 n = if ltb n (2 ^ 63) then pos n else negsuc (2 ^ 64 - 1 - n)

-- The values of an `int64`.
abbrev pub IsInt64 : ℤ → Type 0
IsInt64 (pos n) = n < 2 ^ 63
IsInt64 (negsuc n) = n < 2 ^ 63

from_bytes-append :
    (n : ℕ) (xs ys : List ℕ) → from_bytes n (xs ++ ys) ≡ from_bytes (from_bytes n xs) ys
unfolding from_bytes
from_bytes-append n [] ys = refl
from_bytes-append n (b ∷ xs) ys = from_bytes-append (n * 256 + b) xs ys

pub length-big_endian : (k n : ℕ) → length (big_endian k n) ≡ k
unfolding big_endian
length-big_endian zero n = refl
length-big_endian (suc k) n =
    omega
      (arith, length-append (big_endian k (n / 256)) (n % 256 ∷ []), length-big_endian k (n / 256))

div_lt : (k n : ℕ) → n < 256 ^ suc k → n / 256 < 256 ^ k
div_lt k n h = let h' : n < 256 ^ k * 256 = simp unary_clauses at h in omega arith

-- Enough bytes hold the number.
from_bytes-big_endian : (k n : ℕ) → n < 256 ^ k → from_bytes 0 (big_endian k n) ≡ n
unfolding big_endian from_bytes
from_bytes-big_endian zero n h = omega arith
from_bytes-big_endian (suc k) n h =
    from_bytes-append 0 (big_endian k (n / 256)) (n % 256 ∷ [])
    ∙ omega (arith, from_bytes-big_endian k (n / 256) (div_lt k n h))

pub uint64_round_trip : (n : ℕ) → n < 2 ^ 64 → from_bytes 0 (big_endian 8 n) ≡ n
uint64_round_trip n h = from_bytes-big_endian 8 n (omega arith)

pub to_uint64_lt : (z : ℤ) → IsInt64 z → to_uint64 z < 2 ^ 64
unfolding to_uint64
to_uint64_lt (pos n) h = omega arith
to_uint64_lt (negsuc n) h = omega arith

pub to_int64-to_uint64 : (z : ℤ) → IsInt64 z → to_int64 (to_uint64 z) ≡ z
unfolding to_uint64 to_int64
to_int64-to_uint64 (pos n) h = ground arith
to_int64-to_uint64 (negsuc n) h = ground arith
