-- ===== src/Tests/Crypto.antt =====
-- The theorems on encrypted ids with a toy cipher, hash and text encoding.
use goth_scaffold.Prelude.{
  ◌≡◌, refl, Text, codes, [], ◌∷◌, replicate, none, some, ok, arith, negsuc,
}
use goth_scaffold.Crypto.{Primitives, IsSound, Keys, encrypt, decrypt}
use goth_scaffold.Crypto.KeyCache.{IsConsistent}
use goth_scaffold.Crypto.RoundTrip.{decrypt-encrypt}
use goth_scaffold.Crypto.Ids.{encrypt_id, decrypt_id, decrypt_id-encrypt_id}

-- The text is the bytes, a block is its own encryption, and every hash is the same.
abbrev toy : Primitives
toy = record {
  sha256 = λ s. replicate 32 7;
  encrypt_block = λ key b. b;
  decrypt_block = λ key b. b;
  encode62 = λ b. b;
  decode62 = λ s. some s;
}

toy-IsSound : IsSound toy
toy-IsSound = record {
  length-sha256 = λ s. refl;
  length-encrypt_block = λ k b h h'. h';
  decrypt-encrypt = λ k b h h'. refl;
  decode-encode = λ b. refl;
  encode-empty = λ b. refl;
}

abbrev no_keys : Keys
no_keys = record { prefix = codes "app"; cache = λ n. none }

no_keys-IsConsistent : IsConsistent toy no_keys
unfolding IsConsistent
no_keys-IsConsistent = λ name key e. absurd (cc e)

decrypt-encrypt_example :
    (text : Text) × ((encrypt toy (1 ∷ 2 ∷ []) (codes "user") (codes "2") no_keys).0 ≡ ok text)
    × ((decrypt toy text (codes "user") (codes "2") no_keys).0 ≡ ok (1 ∷ 2 ∷ []))
decrypt-encrypt_example =
    decrypt-encrypt toy toy-IsSound (1 ∷ 2 ∷ []) (codes "user") (codes "2") no_keys no_keys refl
      no_keys-IsConsistent no_keys-IsConsistent refl

decrypt_id-encrypt_id_example :
    (text : Text) × ((encrypt_id toy (codes "user") (negsuc 4) no_keys).0 ≡ ok text)
    × ((decrypt_id toy (codes "user") text no_keys).0 ≡ ok (negsuc 4))
decrypt_id-encrypt_id_example =
    decrypt_id-encrypt_id toy (codes "user") (negsuc 4) no_keys no_keys toy-IsSound (omega arith)
      no_keys-IsConsistent no_keys-IsConsistent refl
