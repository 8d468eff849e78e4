-- ===== src/Transactions.antt =====
-- app/repositories/database_repository.go: transactions that are retried with growing delays.
pub mod Delays
pub mod Counting
use goth_scaffold.Prelude.{
  ℕ, zero, suc, ◌+◌, ◌-◌, ◌*◌, ◌%◌, ◌^◌, Bool, true, false, not, ◌||◌, ◌==◌, leb, if◌then◌else◌,
  List, [], ◌∷◌, ◌++◌, take, get_or, Option, none, some, Result, ok, err, ℤ, pos, negsuc,
}

-- How the function of the caller ends.
pub data Outcome (E : Type 0) : Type 0 where
  returned : Option E → Outcome E
  panicked : Outcome E

-- The database, the function of the caller, the context and the clock: each step may change their
-- state `S`, and `X` is a transaction. A rollback's own error is only logged.
pub record Session (S E X : Type 0) : Type 0 where
  pub ctx_err : S → Option E × S
  pub begin : S → Result E X × S
  pub fn : X → S → Outcome E × S
  pub commit : X → S → Option E × S
  pub rollback : X → S → S
  pub wait : ℕ → S → Option E × S
  pub is_retryable : E → Bool
  pub context_required : E
  pub panic_occurred : E

-- How a pass of the loop ends: the function returns, or `lastErr` is set and the loop goes on.
pub data Pass (E : Type 0) : Type 0 where
  stop : Option E → Pass E
  again : E → Pass E

-- `last * 2` on the 64 bits of a duration
abbrev double : ℕ → ℕ
double n = n * 2 % 2 ^ 64

-- The loop that appends: `n` delays behind `last`
unfoldable pub doubled : ℕ → ℕ → List ℕ
doubled zero last = []
doubled (suc n) last = double last ∷ doubled n (double last)

-- In nanoseconds
abbrev pub base_backoffs : List ℕ
base_backoffs = 50000000 ∷ 100000000 ∷ 200000000 ∷ 400000000 ∷ 800000000 ∷ []

-- `_TransactionRetryBackoffs`
unfoldable pub transaction_retry_backoffs : ℕ → List ℕ
unfolding doubled
transaction_retry_backoffs max_retries =
    if leb max_retries 5
    then take max_retries base_backoffs
    else base_backoffs ++ doubled (max_retries - 5) 800000000

-- `if maxRetries <= 0 { maxRetries = 1 }`
abbrev pub at_least_one : ℤ → ℕ
at_least_one (pos zero) = 1
at_least_one (pos (suc n)) = suc n
at_least_one (negsuc n) = 1

module _ {S E X : Type 0} (d : Session S E X) where
  abbrev after_wait : E → Option E → Pass E
  after_wait e none = again e
  after_wait e (some w) = stop (some w)

  -- `_TransactionRetryAttempt._Retry`, and the `return` or `continue` behind it
  unfoldable pub retry : ℕ → ℕ → E → S → Pass E × S
  unfolding transaction_retry_backoffs
  retry number max_retries e s =
      let (waited, s') =
        d.wait (get_or (transaction_retry_backoffs max_retries) (number - 1) 0) s in
      if not (d.is_retryable e) || number == max_retries
      then (stop (some e), s)
      else (after_wait e waited, s')

  abbrev settle_outcome : Outcome E → X → S → Option E × S
  settle_outcome (returned none) x s = (none, s)
  settle_outcome (returned (some e)) x s = (some e, d.rollback x s)
  settle_outcome panicked x s = (some d.panic_occurred, d.rollback x s)

  -- `_WithTransactionRecovery` around the function of the caller
  unfoldable pub with_transaction_recovery : X → S → Option E × S
  with_transaction_recovery x s = settle_outcome (d.fn x s).0 x (d.fn x s).1

  -- Behind the commit, by its error
  unfoldable pub after_commit : ℕ → ℕ → Option E → X → S → Pass E × S
  unfolding retry
  after_commit number max_retries none x s = (stop none, s)
  after_commit number max_retries (some e) x s = retry number max_retries e (d.rollback x s)

  -- Behind the function of the caller, by the error of the context
  unfoldable pub before_commit : ℕ → ℕ → Option E → X → S → Pass E × S
  unfolding after_commit
  before_commit number max_retries none x s =
      after_commit number max_retries (d.commit x s).0 x (d.commit x s).1
  before_commit number max_retries (some e) x s = (stop (some e), d.rollback x s)

  -- Behind the function of the caller, by its error
  unfoldable pub after_fn : ℕ → ℕ → Option E → X → S → Pass E × S
  unfolding before_commit retry
  after_fn number max_retries none x s =
      before_commit number max_retries (d.ctx_err s).0 x (d.ctx_err s).1
  after_fn number max_retries (some e) x s = retry number max_retries e s

  -- Behind `begin`
  unfoldable pub after_begin : ℕ → ℕ → Result E X → S → Pass E × S
  unfolding after_fn with_transaction_recovery retry
  after_begin number max_retries (ok x) s =
      let (r, s') = with_transaction_recovery x s in after_fn number max_retries r x s'
  after_begin number max_retries (err e) s = retry number max_retries e s

  -- At the top of the loop's body, by the error of the context
  unfoldable pub attempt_from : ℕ → ℕ → Option E → S → Pass E × S
  unfolding after_begin
  attempt_from number max_retries none s =
      after_begin number max_retries (d.begin s).0 (d.begin s).1
  attempt_from number max_retries (some e) s = (stop (some e), s)

  -- The loop's body
  unfoldable pub attempt : ℕ → ℕ → S → Pass E × S
  unfolding attempt_from
  attempt number max_retries s = attempt_from number max_retries (d.ctx_err s).0 (d.ctx_err s).1

  -- The loop with `left` passes to go: `number` is `attemptNumber`, and `last` is `lastErr`.
  unfoldable pub attempts : ℕ → ℕ → ℕ → Option E → S → Option E × S
  unfolding attempt
  attempts zero number max_retries last s = (last, s)
  attempts (suc left) number max_retries last s = elim (attempt number max_retries s).0 [
    | stop r ↦ (r, (attempt number max_retries s).1)
    | again e ↦ attempts left (suc number) max_retries (some e) (attempt number max_retries s).1
  ]

  -- `WithTransactionRetryContext`; `false` is a nil context.
  unfoldable pub with_transaction_retry_context : Bool → ℤ → S → Option E × S
  unfolding attempts
  with_transaction_retry_context false max_retries s = (some d.context_required, s)
  with_transaction_retry_context true max_retries s =
      attempts (at_least_one max_retries) 1 (at_least_one max_retries) none s
