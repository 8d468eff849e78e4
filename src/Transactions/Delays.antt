-- ===== src/Transactions/Delays.antt =====
-- `_TransactionRetryBackoffs` of app/repositories/database_repository.go: the delays.
use goth_scaffold.Prelude.{
  ℕ, zero, suc, ◌+◌, ◌-◌, ◌*◌, ◌%◌, ◌^◌, ◌<◌, ◌≡◌, refl, sym, ◌/◌, ap, ◌∙◌, length-take_le, leb,
  if_rule, List, [], ◌∷◌, ◌++◌, length, take, get_or, arith,
}
use native.Mathlib.Numerals.{unary_clauses}
use native.Mathlib.Nat.{add-mul-mod_self_right, mod-add-div}
use goth_scaffold.Transactions.{doubled, base_backoffs, transaction_retry_backoffs}

mod-mul : (a b m : ℕ) → a % m * b % m ≡ a * b % m
mod-mul a b m =
    sym (add-mul-mod_self_right (a % m * b) (a / m * b) m)
    ∙ ap (λ t. t % m)
        (let e : (a % m + m * (a / m)) * b ≡ a * b = ap (λ t. t * b) (mod-add-div a m) in
          omega (arith, e))

power_suc : (a i : ℕ) → a * 2 * 2 ^ i ≡ a * 2 ^ suc i
power_suc a i = simp unary_clauses (omega arith)

doubled-get_or : (n last i : ℕ) → i < n → get_or (doubled n last) i 0 ≡ last * 2 ^ suc i % 2 ^ 64
unfolding doubled
doubled-get_or zero last i h = absurd (omega arith)
doubled-get_or (suc n) last zero h = refl
doubled-get_or (suc n) last (suc i) h =
    doubled-get_or n (last * 2 % 2 ^ 64) i (omega arith)
    ∙ mod-mul (last * 2) (2 ^ suc i) (2 ^ 64)
    ∙ ap (λ t. t % 2 ^ 64) (power_suc last (suc i))

length-doubled : (n last : ℕ) → length (doubled n last) ≡ n
unfolding doubled
length-doubled zero last = refl
length-doubled (suc n) last = ap suc (length-doubled n (last * 2 % 2 ^ 64))

get_or-take : (n i : ℕ) (xs : List ℕ) → i < n → get_or (take n xs) i 0 ≡ get_or xs i 0
get_or-take zero i xs h = absurd (omega arith)
get_or-take (suc n) i [] h = refl
get_or-take (suc n) zero (x ∷ xs) h = refl
get_or-take (suc n) (suc i) (x ∷ xs) h = get_or-take n i xs (omega arith)

get_or-front : (i : ℕ) (xs ys : List ℕ) → i < length xs → get_or (xs ++ ys) i 0 ≡ get_or xs i 0
get_or-front i [] ys h = absurd (omega arith)
get_or-front zero (x ∷ xs) ys h = refl
get_or-front (suc i) (x ∷ xs) ys h = get_or-front i xs ys (omega arith)

base : (i : ℕ) → i < 5 → get_or base_backoffs i 0 ≡ 50000000 * 2 ^ i % 2 ^ 64
base zero h = refl
base (suc zero) h = refl
base (suc (suc zero)) h = refl
base (suc (suc (suc zero))) h = refl
base (suc (suc (suc (suc zero)))) h = refl
base (suc (suc (suc (suc (suc i))))) h = absurd (omega arith)

beyond :
    (n i : ℕ)
    → i < n
    → get_or (base_backoffs ++ doubled (n - 5) 800000000) i 0 ≡ 50000000 * 2 ^ i % 2 ^ 64
beyond n zero h = refl
beyond n (suc zero) h = refl
beyond n (suc (suc zero)) h = refl
beyond n (suc (suc (suc zero))) h = refl
beyond n (suc (suc (suc (suc zero)))) h = refl
beyond n (suc (suc (suc (suc (suc i))))) h =
    doubled-get_or (n - 5) 800000000 i (omega arith)
    ∙ ap (λ t. t % 2 ^ 64) (simp unary_clauses (omega arith))

-- There is a delay for each attempt, so that `backoffs[attemptNumber-1]` is in range, and the delay
-- is 50 ms doubled as often as there were attempts before, on the 64 bits of a duration.
pub transaction_retry_backoffs-get_or :
    (n i : ℕ)
    → i < n
    → (length (transaction_retry_backoffs n) ≡ n)
      × (get_or (transaction_retry_backoffs n) i 0 ≡ 50000000 * 2 ^ i % 2 ^ 64)
unfolding transaction_retry_backoffs
transaction_retry_backoffs-get_or n i h =
    if_rule (λ l. (length l ≡ n) × (get_or l i 0 ≡ 50000000 * 2 ^ i % 2 ^ 64)) (leb n 5)
      (λ e. (
        length-take_le n base_backoffs (ground arith),
        get_or-take n i base_backoffs h ∙ base i (ground arith),
      ))
      (λ e. (ground (arith, length-doubled (n - 5) 800000000), beyond n i h))
