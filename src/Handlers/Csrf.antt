-- ===== src/Handlers/Csrf.antt =====
-- app/handlers/endpoints/handlertask.go: a token until it expires.
use goth_scaffold.Prelude.{ℕ, ◌+◌, ◌≤◌, ◌<◌, ◌≡◌, arith, true, none, some}
use goth_scaffold.Handlers.{TimeHash, generate_csrf_token, validate_csrf_token}

-- What the library documents of its hashes
pub record IsTimeHash {D : Type 0} (h : TimeHash D) : Type 0 where
  pub valid : (value : D) (time : ℕ) → h.validate_time_hash (h.crypto_time_hash value time) ≡ true
  pub timed : (value : D) (time : ℕ) → h.timestamp_of (h.crypto_time_hash value time) ≡ time
  pub held_data : (value : D) (time : ℕ) → h.data_of (h.crypto_time_hash value time) ≡ value

module _ {D : Type 0} (h : TimeHash D) (is_time_hash : IsTimeHash h) where
  -- A token gives its data back as long as its time has not passed, and is refused from then on.
  pub validate_csrf_token-generate_csrf_token :
      (value : D) (expires_in now later : ℕ)
      → let token = generate_csrf_token h value expires_in now in
        (later ≤ now + expires_in → validate_csrf_token h token later ≡ some value)
        × (now + expires_in < later → validate_csrf_token h token later ≡ none)
  unfolding generate_csrf_token validate_csrf_token
  validate_csrf_token-generate_csrf_token value expires_in now later =
      let time = now + expires_in in
      (
        λ k.
            rw
              (
                is_time_hash.valid value time,
                is_time_hash.timed value time,
                is_time_hash.held_data value time,
              )
              (ground arith),
        λ k. rw (is_time_hash.valid value time, is_time_hash.timed value time) (ground arith),
      )
