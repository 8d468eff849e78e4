-- ===== src/Crypto/Ids.antt =====
-- `EncryptId` and `DecryptId` of a key type in app/components/crypto/crypto.go.
use goth_scaffold.Prelude.{
  arith, ◌≡◌, refl, Text, [], Result, ok, err, ◌>>=◌, ℤ, length, not, ◌==◌, if◌then◌else◌,
}
use goth_scaffold.Crypto.Bytes.{
  big_endian, from_bytes, to_uint64, to_int64, IsInt64, length-big_endian, uint64_round_trip,
  to_uint64_lt, to_int64-to_uint64,
}
use goth_scaffold.Crypto.KeyCache.{IsConsistent}
use goth_scaffold.Crypto.RoundTrip.{decrypt-encrypt, is_empty-length}
use goth_scaffold.Crypto.{
  Bytes, Primitives, IsSound, CryptoError, invalid_decrypted_length, Keys, encrypt, decrypt,
}

-- `KeyType.EncryptId`
unfoldable pub encrypt_id : Primitives → Text → ℤ → Keys → Result CryptoError Text × Keys
encrypt_id x key_type id = encrypt x (big_endian 8 (to_uint64 id)) key_type []

-- The end of `KeyType.DecryptId`
unfoldable pub id_of : Bytes → Result CryptoError ℤ
id_of b =
    if not (length b == 8) then err invalid_decrypted_length else ok (to_int64 (from_bytes 0 b))

-- `KeyType.DecryptId`
unfoldable pub decrypt_id : Primitives → Text → Text → Keys → Result CryptoError ℤ × Keys
unfolding id_of
decrypt_id x key_type encrypted s =
    let (decrypted, s') = decrypt x encrypted key_type [] s in (decrypted >>= id_of, s')

id_of-big_endian : (id : ℤ) → IsInt64 id → id_of (big_endian 8 (to_uint64 id)) ≡ ok id
unfolding id_of
id_of-big_endian id h =
    rw
      (
        length-big_endian 8 (to_uint64 id),
        uint64_round_trip (to_uint64 id) (to_uint64_lt id h),
        to_int64-to_uint64 id h,
      )
      refl

-- Every `int64` that `EncryptId` of a key type encrypts, `DecryptId` of the key type gives back, on
-- key caches that are consistent and have the same prefix.
pub decrypt_id-encrypt_id :
    (x : Primitives) (key_type : Text) (id : ℤ) (s s' : Keys)
    → IsSound x
    → IsInt64 id
    → IsConsistent x s
    → IsConsistent x s'
    → s'.prefix ≡ s.prefix
    → (text : Text) × ((encrypt_id x key_type id s).0 ≡ ok text)
      × ((decrypt_id x key_type text s').0 ≡ ok id)
unfolding encrypt_id decrypt_id
decrypt_id-encrypt_id x key_type id s s' sound h c c' e =
    let (text, sealed, opened) =
      decrypt-encrypt x sound (big_endian 8 (to_uint64 id)) key_type [] s s'
        (is_empty-length (big_endian 8 (to_uint64 id))
          (omega (arith, length-big_endian 8 (to_uint64 id))))
        c c' e in
    (text, sealed, rw opened (id_of-big_endian id h))
