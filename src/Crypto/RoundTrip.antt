-- ===== src/Crypto/RoundTrip.antt =====
-- `Encrypt` and `Decrypt` in app/components/crypto/crypto.go, one after the other.
use goth_scaffold.Prelude.{
  ℕ, zero, suc, ◌+◌, ◌-◌, ◌*◌, ◌/◌, ◌%◌, ◌≤◌, ◌≡◌, refl, ap, sym, subst, ◌∙◌, Text, true, false, [],
  ◌∷◌, ◌++◌, length, take, drop, get_or, replicate, all, is_empty, length-append, length-replicate,
  take-append, drop-append, take-append-drop, length-take_le, length-drop, ok, arith, ◌==◌,
}
use goth_scaffold.Crypto.KeyCache.{IsConsistent, get_key-IsConsistent}
use goth_scaffold.Crypto.{
  Bytes, Primitives, IsSound, Keys, derive, get_key, ecb, pad, encrypt_with, encrypt, strip,
  decrypt_with, decrypt_decoded, decrypt, or_default, cache_key,
}

get_or-append :
    (xs ys : Bytes) (i j d : ℕ) → j ≡ length xs + i → get_or (xs ++ ys) j d ≡ get_or ys i d
get_or-append [] ys i j d h = let e : j ≡ i = omega arith in ap (λ n. get_or ys n d) e
get_or-append (x ∷ xs) ys i zero d h = absurd (omega arith)
get_or-append (x ∷ xs) ys i (suc j) d h = get_or-append xs ys i j d (omega arith)

get_or-replicate : (n i a d : ℕ) → suc i ≤ n → get_or (replicate n a) i d ≡ a
get_or-replicate zero i a d h = absurd (omega arith)
get_or-replicate (suc n) zero a d h = refl
get_or-replicate (suc n) (suc i) a d h = get_or-replicate n i a d (omega arith)

all-replicate : (n a : ℕ) → all (λ c. c == a) (replicate n a) ≡ true
all-replicate zero a = refl
all-replicate (suc n) a = ground (arith, all-replicate n a)

pub is_empty-length : (b : Bytes) → 1 ≤ length b → is_empty b ≡ false
is_empty-length [] h = absurd (omega arith)
is_empty-length (c ∷ b) h = refl

-- What is behind the padding is what `strip` gives back.
strip-replicate : (b : Bytes) (n : ℕ) → 1 ≤ n → n ≤ 16 → strip (b ++ replicate n n) ≡ ok b
unfolding strip
strip-replicate b n h h' =
    let size : length (b ++ replicate n n) ≡ length b + n =
      omega (arith, length-append b (replicate n n), length-replicate n n) in
    let some_byte : is_empty (b ++ replicate n n) ≡ false =
      is_empty-length (b ++ replicate n n) (omega arith) in
    let last : get_or (b ++ replicate n n) (length (b ++ replicate n n) - 1) 0 ≡ n =
      get_or-append b (replicate n n) (n - 1) (length (b ++ replicate n n) - 1) 0 (omega arith)
      ∙ get_or-replicate n (n - 1) n 0 (omega arith) in
    let padding : drop (length (b ++ replicate n n) - n) (b ++ replicate n n) ≡ replicate n n =
      drop-append (length (b ++ replicate n n) - n) b (replicate n n) (omega arith) in
    let front : take (length (b ++ replicate n n) - n) (b ++ replicate n n) ≡ b =
      take-append (length (b ++ replicate n n) - n) b (replicate n n) (omega arith) in
    let same : all (λ c. c == n) (replicate n n) ≡ true = all-replicate n n in
    rw (last, padding, front, same, some_byte) ground arith

length-ecb :
    (f : Bytes → Bytes)
    → ((c : Bytes) → length c ≡ 16 → length (f c) ≡ 16)
    → (n : ℕ) (b : Bytes) → length b ≡ n * 16
    → length (ecb f n b) ≡ n * 16
unfolding ecb
length-ecb f hf zero b h = refl
length-ecb f hf (suc n) b h =
    let rest : length (drop 16 b) ≡ n * 16 = omega (arith, length-drop 16 b) in
    omega (
      arith,
      length-append (f (take 16 b)) (ecb f n (drop 16 b)),
      hf (take 16 b) (length-take_le 16 b (omega arith)),
      length-ecb f hf n (drop 16 b) rest,
    )

-- Block by block, the second function undoes the first.
ecb-ecb :
    (f g : Bytes → Bytes)
    → ((c : Bytes) → length c ≡ 16 → length (f c) ≡ 16)
    → ((c : Bytes) → length c ≡ 16 → g (f c) ≡ c)
    → (n : ℕ) (b : Bytes) → length b ≡ n * 16
    → ecb g n (ecb f n b) ≡ b
unfolding ecb
ecb-ecb f g hf hg zero [] h = refl
ecb-ecb f g hf hg zero (c ∷ b) h = absurd (omega arith)
ecb-ecb f g hf hg (suc n) b h =
    let rest : length (drop 16 b) ≡ n * 16 = omega (arith, length-drop 16 b) in
    let block : length (take 16 b) ≡ 16 = length-take_le 16 b (omega arith) in
    let sealed : length (f (take 16 b)) ≡ 16 = hf (take 16 b) block in
    rw
      (
        take-append 16 (f (take 16 b)) (ecb f n (drop 16 b)) sealed,
        drop-append 16 (f (take 16 b)) (ecb f n (drop 16 b)) sealed,
        hg (take 16 b) block,
        ecb-ecb f g hf hg n (drop 16 b) rest,
      )
      (take-append-drop 16 b)

length-pad : (b : Bytes) → length (pad b) ≡ (length b / 16 + 1) * 16
unfolding pad
length-pad b =
    let padding : length (replicate (16 - length b % 16) (16 - length b % 16))
        ≡ 16 - length b % 16 =
      length-replicate (16 - length b % 16) (16 - length b % 16) in
    omega (arith, length-append b (replicate (16 - length b % 16) (16 - length b % 16)))

blocks-pad : (b : Bytes) → length (pad b) ≡ length (pad b) / 16 * 16
blocks-pad b = omega (arith, length-pad b)

strip-pad : (b : Bytes) → strip (pad b) ≡ ok b
unfolding pad
strip-pad b = strip-replicate b (16 - length b % 16) (omega arith) (omega arith)

module _ (x : Primitives) (sound : IsSound x) where
  length-derive : (name : Text) → length (derive x name) ≡ 16
  unfolding derive
  length-derive name = length-take_le 16 (x.sha256 name) (omega (arith, sound.length-sha256 name))

  -- The blocks that `Encrypt` writes as text
  sealed_blocks : Bytes → Bytes → Bytes
  sealed_blocks key b = ecb (x.encrypt_block key) (length (pad b) / 16) (pad b)

  encrypt_with-sealed :
      (key b : Bytes)
      → length key ≡ 16
      → encrypt_with x key b ≡ ok (x.encode62 (sealed_blocks key b))
  unfolding encrypt_with sealed_blocks
  encrypt_with-sealed key b h = ground arith

  length-sealed : (key b : Bytes) → length key ≡ 16 → length (sealed_blocks key b) ≡ length (pad b)
  unfolding sealed_blocks
  length-sealed key b h =
      length-ecb (x.encrypt_block key) (λ c. sound.length-encrypt_block key c h)
        (length (pad b) / 16) (pad b) (blocks-pad b)
      ∙ sym (blocks-pad b)

  decrypt_with-sealed :
      (key b : Bytes) → length key ≡ 16 → decrypt_with x key (sealed_blocks key b) ≡ ok b
  unfolding decrypt_with sealed_blocks
  decrypt_with-sealed key b h =
      let size : length (sealed_blocks key b) ≡ length (pad b) = length-sealed key b h in
      let whole : ecb (x.decrypt_block key) (length (pad b) / 16) (sealed_blocks key b) ≡ pad b =
        ecb-ecb (x.encrypt_block key) (x.decrypt_block key)
          (λ c. sound.length-encrypt_block key c h) (λ c. sound.decrypt-encrypt key c h)
          (length (pad b) / 16) (pad b) (blocks-pad b) in
      rw (h, size, whole) (strip-pad b)

  -- What `Encrypt` writes is not empty, and `Decrypt` under the same key reads it back.
  decrypt-sealed :
      (b : Bytes) (key_type version : Text) (s : Keys)
      → IsConsistent x s
      → (decrypt x
          (x.encode62 (sealed_blocks (derive x (cache_key s (or_default version) key_type)) b))
          key_type
          version
          s).0
        ≡ ok b
  unfolding decrypt decrypt_decoded
  decrypt-sealed b key_type version s h =
      let name : Text = cache_key s (or_default version) key_type in
      let key : Bytes = derive x name in
      let c : Bytes = sealed_blocks key b in
      let size : length c ≡ (length b / 16 + 1) * 16 =
        length-sealed key b (length-derive name) ∙ length-pad b in
      let shown : is_empty (x.encode62 c) ≡ false =
        sound.encode-empty c ∙ is_empty-length c (omega arith) in
      let whole_blocks : length c % 16 ≡ 0 = omega arith in
      let same_key : (get_key x (or_default version) key_type s).0 ≡ key =
        (get_key-IsConsistent x (or_default version) key_type s h).0 in
      let opened : decrypt_with x key c ≡ ok b = decrypt_with-sealed key b (length-derive name) in
      rw (shown, sound.decode-encode c, whole_blocks, same_key, opened) refl

  -- On key caches that are consistent and have the same prefix, `Encrypt` succeeds on all data but
  -- the empty, and `Decrypt` of its result under the same key type and version gives the data back.
  pub decrypt-encrypt :
      (b : Bytes) (key_type version : Text) (s s' : Keys)
      → is_empty b ≡ false
      → IsConsistent x s
      → IsConsistent x s'
      → s'.prefix ≡ s.prefix
      → (text : Text) × ((encrypt x b key_type version s).0 ≡ ok text)
        × ((decrypt x text key_type version s').0 ≡ ok b)
  unfolding encrypt
  decrypt-encrypt b key_type version s s' filled h h' e =
      let same_key : (get_key x (or_default version) key_type s).0
          ≡ derive x (cache_key s (or_default version) key_type) =
        (get_key-IsConsistent x (or_default version) key_type s h).0 in
      let read : (decrypt x
            (x.encode62 (sealed_blocks (derive x (cache_key s (or_default version) key_type)) b))
            key_type version s').0
          ≡ ok b =
        subst
          (λ p.
            (decrypt x
              (x.encode62 (
                sealed_blocks
                  (derive x (cache_key (record s' { prefix = p }) (or_default version) key_type))
                  b))
              key_type version s').0
            ≡ ok b)
          e (decrypt-sealed b key_type version s' h') in
      (
        x.encode62 (sealed_blocks (derive x (cache_key s (or_default version) key_type)) b),
        rw (filled, same_key)
            (encrypt_with-sealed (derive x (cache_key s (or_default version) key_type)) b
              (length-derive (cache_key s (or_default version) key_type))),
        read,
      )
