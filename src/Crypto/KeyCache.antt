-- ===== src/Crypto/KeyCache.antt =====
-- `getKey` in app/components/crypto/crypto.go: the cache of keys, between whose reading and writing
-- other calls may run.
use goth_scaffold.Prelude.{◌≡◌, refl, Text, text_eq_iff, Option-cases, inl, inr, some, arith}
use goth_scaffold.Crypto.{Bytes, Primitives, Keys, cache_key, derive, store_key, get_key}

-- Every entry is the key of its name.
unfoldable pub IsConsistent : Primitives → Keys → Type 0
IsConsistent x s = (name : Text) (key : Bytes) → s.cache name ≡ some key → key ≡ derive x name

module _ (x : Primitives) where
  -- The second part of `getKey` finds or makes the key of the name on every consistent cache, so
  -- also on one that other calls have changed since the first part, and leaves a consistent cache.
  pub store_key-IsConsistent :
      (name : Text) (s : Keys)
      → IsConsistent x s
      → ((store_key name (derive x name) s).0 ≡ derive x name)
        × IsConsistent x ((store_key name (derive x name) s).1)
  unfolding store_key IsConsistent
  store_key-IsConsistent name s h = elim (Option-cases (s.cache name)) [
    | inl e ↦ rw (e, store_key) (refl, λ n k e. ground (arith, h n k, text_eq_iff name n))
    | inr (k, e) ↦ rw (e, store_key) (h name k e, h)
  ]

  pub get_key-IsConsistent :
      (version key_type : Text) (s : Keys)
      → IsConsistent x s
      → ((get_key x version key_type s).0 ≡ derive x (cache_key s version key_type))
        × IsConsistent x ((get_key x version key_type s).1)
  unfolding get_key IsConsistent
  get_key-IsConsistent version key_type s h =
      elim (Option-cases (s.cache (cache_key s version key_type))) [
        | inl e ↦ rw (e, get_key) (store_key-IsConsistent (cache_key s version key_type) s h)
        | inr (k, e) ↦ rw (e, get_key) (h (cache_key s version key_type) k e, h)
      ]
