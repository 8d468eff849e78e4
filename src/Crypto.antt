-- ===== src/Crypto.antt =====
-- app/components/crypto: encrypted ids. AES-ECB with PKCS7 padding, in base62, under keys that are
-- derived from a type and a version and kept in a cache.
pub mod Bytes
pub mod Ids
pub mod KeyCache
pub mod RoundTrip
use goth_scaffold.Prelude.{
  ℕ, zero, suc, ◌+◌, ◌-◌, ◌/◌, ◌%◌, ◌<◌, ◌≤◌, ◌≡◌, Text, codes, Bool, true, false, not, ◌&&◌, ◌||◌,
  ◌==◌, ltb, if◌then◌else◌, List, [], ◌∷◌, ◌++◌, length, take, drop, replicate, get_or, all,
  is_empty, text_eq, Option, none, some, Result, ok, err, ◌>>=◌, ℤ,
}

abbrev pub Bytes : Type 0
Bytes = List ℕ

-- AES on one block of 16 bytes, SHA-256, and the package base62, whose decoder may panic: `none`.
pub record Primitives : Type 0 where
  pub sha256 : Text → Bytes
  pub encrypt_block : Bytes → Bytes → Bytes
  pub decrypt_block : Bytes → Bytes → Bytes
  pub encode62 : Bytes → Text
  pub decode62 : Text → Option Bytes

-- What is documented of them: a hash of 32 bytes, a block cipher that can be undone, and a text
-- encoding that can be undone and is empty for no bytes only.
pub record IsSound (x : Primitives) : Type 0 where
  pub length-sha256 : (s : Text) → length (x.sha256 s) ≡ 32
  pub length-encrypt_block :
      (k b : Bytes) → length k ≡ 16 → length b ≡ 16 → length (x.encrypt_block k b) ≡ 16
  pub decrypt-encrypt :
      (k b : Bytes) → length k ≡ 16 → length b ≡ 16 → x.decrypt_block k (x.encrypt_block k b) ≡ b
  pub decode-encode : (b : Bytes) → x.decode62 (x.encode62 b) ≡ some b
  pub encode-empty : (b : Bytes) → is_empty (x.encode62 b) ≡ is_empty b

pub data CryptoError : Type 0 where
  empty_data invalid_key_size empty_encrypted invalid_base62 invalid_encrypted_length : CryptoError
  invalid_decrypted_data invalid_padding invalid_decrypted_length : CryptoError

-- `KeyPrefix` and `keyCache`
pub record Keys : Type 0 where
  pub prefix : Text
  pub cache : Text → Option Bytes

abbrev pub default_version : Text
default_version = codes "1.0"

-- `fmt.Sprintf("%s_%s:%s", KeyPrefix, version, keyType.String())`
abbrev pub cache_key : Keys → Text → Text → Text
cache_key s version key_type = s.prefix ++ (b'_' ∷ (version ++ (b':' ∷ key_type)))

-- The last part of `getKey`, under the write lock: an entry that is there by now wins.
unfoldable pub store_key : Text → Bytes → Keys → Bytes × Keys
unfolding text_eq
store_key name key s = elim (s.cache name) [
  | some cached ↦ (cached, s)
  | none ↦ (key, record s { cache = λ n. if text_eq name n then some key else s.cache n })
]

-- The loop over the blocks: `n` of them are left.
unfoldable pub ecb : (Bytes → Bytes) → ℕ → Bytes → Bytes
ecb f zero b = []
ecb f (suc n) b = f (take 16 b) ++ ecb f n (drop 16 b)

unfoldable pub pad : Bytes → Bytes
pad b = let padding = 16 - length b % 16 in b ++ replicate padding padding

-- The sizes that `aes.NewCipher` accepts
abbrev is_key_size : ℕ → Bool
is_key_size n = n == 16 || n == 24 || n == 32

abbrev or_default : Text → Text
or_default version = if is_empty version then default_version else version

-- Behind the decryption of the blocks: the checks of the padding, and what stands before it
unfoldable pub strip : Bytes → Result CryptoError Bytes
strip b =
    let padding = get_or b (length b - 1) 0 in
    if is_empty b
    then err invalid_decrypted_data
    else if ltb 16 padding || padding == 0 || ltb (length b) padding
    then err invalid_padding
    else if not (all (λ c. c == padding) (drop (length b - padding) b))
    then err invalid_padding
    else ok (take (length b - padding) b)

module _ (x : Primitives) where
  -- The key that is made of a cache key: the first 16 bytes of its hash.
  unfoldable pub derive : Text → Bytes
  derive name = take 16 (x.sha256 name)

  -- `getKey`, with no other call between its two parts
  unfoldable pub get_key : Text → Text → Keys → Bytes × Keys
  unfolding derive store_key
  get_key version key_type s = elim (s.cache (cache_key s version key_type)) [
    | some cached ↦ (cached, s)
    | none ↦ store_key (cache_key s version key_type) (derive (cache_key s version key_type)) s
  ]

  unfoldable pub encrypt_with : Bytes → Bytes → Result CryptoError Text
  unfolding ecb pad
  encrypt_with key b =
      let padded = pad b in
      if not (is_key_size (length key))
      then err invalid_key_size
      else ok (x.encode62 (ecb (x.encrypt_block key) (length padded / 16) padded))

  -- `Encrypt`
  unfoldable pub encrypt : Bytes → Text → Text → Keys → Result CryptoError Text × Keys
  unfolding get_key encrypt_with
  encrypt b key_type version s =
      let (key, s') = get_key (or_default version) key_type s in
      if is_empty b then (err empty_data, s) else (encrypt_with key b, s')

  unfoldable pub decrypt_with : Bytes → Bytes → Result CryptoError Bytes
  unfolding ecb strip
  decrypt_with key b =
      if not (is_key_size (length key))
      then err invalid_key_size
      else strip (ecb (x.decrypt_block key) (length b / 16) b)

  unfoldable pub decrypt_decoded :
      Option Bytes → Text → Text → Keys → Result CryptoError Bytes × Keys
  unfolding get_key decrypt_with
  decrypt_decoded none version key_type s = (err invalid_base62, s)
  decrypt_decoded (some b) version key_type s =
      let (key, s') = get_key (or_default version) key_type s in
      if not (length b % 16 == 0)
      then (err invalid_encrypted_length, s)
      else (decrypt_with key b, s')

  -- `Decrypt`
  unfoldable pub decrypt : Text → Text → Text → Keys → Result CryptoError Bytes × Keys
  unfolding decrypt_decoded
  decrypt encrypted key_type version s =
      if is_empty encrypted
      then (err empty_encrypted, s)
      else decrypt_decoded (x.decode62 encrypted) version key_type s
