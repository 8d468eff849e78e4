-- ===== src/Transactions/Counting.antt =====
-- app/repositories/database_repository.go: what one call of the retrying loop does to the
-- transactions, counted.
use goth_scaffold.Prelude.{
  ℕ, zero, suc, ◌+◌, ◌-◌, ◌≤◌, ◌≡◌, refl, Bool, true, false, ◌||◌, Option, none, some, ok, err, ℤ,
  pos, negsuc, ◌⊎◌, arith, ltb, is_some, Result-cases, Option-cases, get_or, inl, inr,
}
use goth_scaffold.Transactions.{
  transaction_retry_backoffs, Session, Pass, stop, again, at_least_one, retry,
  with_transaction_recovery, after_commit, before_commit, after_fn, after_begin, attempt_from,
  attempt, attempts, with_transaction_retry_context,
}

-- Transactions that are open, that were committed, and calls of `begin`.
pub record Counts : Type 0 where
  pub open_now : ℕ
  pub committed : ℕ
  pub begun : ℕ

-- From `c` to `c'`: no other transaction is open, `n` more are committed, `k` more calls of `begin`.
abbrev pub Step : Counts → Counts → ℕ → ℕ → Type 0
Step c c' n k =
    (c'.open_now ≡ c.open_now) × (c'.committed ≡ c.committed + n) × (c'.begun ≡ c.begun + k)

-- The same, and one transaction less is open.
abbrev pub Close : Counts → Counts → ℕ → Type 0
Close c c' n =
    (c'.open_now ≡ c.open_now - 1) × (c'.committed ≡ c.committed + n) × (c'.begun ≡ c.begun)

-- The same as a step, with at most `k` more calls of `begin`.
abbrev pub Within : Counts → Counts → ℕ → ℕ → Type 0
Within c c' n k =
    (c'.open_now ≡ c.open_now) × (c'.committed ≡ c.committed + n) × (c'.begun ≤ c.begun + k)

-- Only a successful `begin` opens a transaction; a successful commit and a rollback close it.
pub record IsCounted {S E X : Type 0} (d : Session S E X) (count : S → Counts) : Type 0 where
  pub ctx_err : (s : S) → Step (count s) (count (d.ctx_err s).1) 0 0
  pub begin_ok :
      (s : S) (x : X)
      → (d.begin s).0 ≡ ok x
      → ((count (d.begin s).1).open_now ≡ suc (count s).open_now)
        × ((count (d.begin s).1).committed ≡ (count s).committed)
        × ((count (d.begin s).1).begun ≡ suc (count s).begun)
  pub begin_err : (s : S) (e : E) → (d.begin s).0 ≡ err e → Step (count s) (count (d.begin s).1) 0 1
  pub fn : (x : X) (s : S) → Step (count s) (count (d.fn x s).1) 0 0
  pub commit_ok :
      (x : X) (s : S) → (d.commit x s).0 ≡ none → Close (count s) (count (d.commit x s).1) 1
  pub commit_err :
      (x : X) (s : S) (e : E)
      → (d.commit x s).0 ≡ some e
      → Step (count s) (count (d.commit x s).1) 0 0
  pub rollback : (x : X) (s : S) → Close (count s) (count (d.rollback x s)) 0
  pub wait : (t : ℕ) (s : S) → Step (count s) (count (d.wait t s).1) 0 0

-- One commit where no error is returned, none where one is
abbrev pub commits_of : {E : Type 0} → Option E → ℕ
commits_of none = 1
commits_of (some e) = 0

abbrev pass_commits : {E : Type 0} → Pass E → ℕ
pass_commits (stop r) = commits_of r
pass_commits (again e) = 0

Pass-cases : {E : Type 0} (p : Pass E) → ((r : Option E) × (p ≡ stop r)) ⊎ ((e : E) × (p ≡ again e))
Pass-cases (stop r) = inl (r, refl)
Pass-cases (again e) = inr (e, refl)

at_least_one_lt : (n : ℤ) → ltb 0 (at_least_one n) ≡ true
at_least_one_lt (pos zero) = refl
at_least_one_lt (pos (suc n)) = ground arith
at_least_one_lt (negsuc n) = refl

module _ {S E X : Type 0} (d : Session S E X) (count : S → Counts)
    (counted : IsCounted d count) where
  retry-counts :
      (number max_retries : ℕ) (e : E) (s : S)
      → Step (count s) (count (retry d number max_retries e s).1) 0 0
        × (pass_commits (retry d number max_retries e s).0 ≡ 0)
  unfolding retry
  retry-counts number max_retries e s =
      ground
        (arith, counted.wait (get_or (transaction_retry_backoffs max_retries) (number - 1) 0) s)

  abbrev Recovered : Option E → Counts → Counts → Type 0
  Recovered none c c' = Step c c' 0 0
  Recovered (some e) c c' = Close c c' 0

  recovery-counts :
      (x : X) (s : S)
      → Recovered
          (with_transaction_recovery d x s).0
          (count s)
          (count (with_transaction_recovery d x s).1)
  unfolding with_transaction_recovery
  recovery-counts x s = ground (arith, counted.fn x s, counted.rollback x (d.fn x s).1)

  after_commit-counts :
      (number max_retries : ℕ) (x : X) (s : S)
      → let p = after_commit d number max_retries (d.commit x s).0 x (d.commit x s).1 in
        Close (count s) (count p.1) (pass_commits p.0)
  unfolding after_commit
  after_commit-counts number max_retries x s = elim (Option-cases (d.commit x s).0) [
    | inl e ↦ rw (e, after_commit) (counted.commit_ok x s e)
    | inr (e, h) ↦
        let s' = d.rollback x (d.commit x s).1 in
        rw (h, after_commit) ground
          (
            arith,
            counted.commit_err x s e h,
            counted.rollback x (d.commit x s).1,
            retry-counts number max_retries e s',
          )
  ]

  before_commit-counts :
      (number max_retries : ℕ) (r : Option E) (x : X) (s : S)
      → let p = before_commit d number max_retries r x s in
        Close (count s) (count p.1) (pass_commits p.0)
  unfolding before_commit
  before_commit-counts number max_retries none x s = after_commit-counts number max_retries x s
  before_commit-counts number max_retries (some e) x s = counted.rollback x s

  after_fn-counts :
      (number max_retries : ℕ) (r : Option E) (x : X) (c : Counts) (s : S)
      → Recovered r c (count s)
      → let p = after_fn d number max_retries r x s in Close c (count p.1) (pass_commits p.0)
  unfolding after_fn
  after_fn-counts number max_retries none x c s h = ground (
    arith,
    counted.ctx_err s,
    before_commit-counts number max_retries (d.ctx_err s).0 x (d.ctx_err s).1,
  )
  after_fn-counts number max_retries (some e) x c s h =
      ground (arith, retry-counts number max_retries e s)

  after_begin-counts :
      (number max_retries : ℕ) (s : S)
      → let p = after_begin d number max_retries (d.begin s).0 (d.begin s).1 in
        Step (count s) (count p.1) (pass_commits p.0) 1
  unfolding after_begin
  after_begin-counts number max_retries s = elim (Result-cases (d.begin s).0) [
    | inl (x, e) ↦
        let s' = (d.begin s).1 in
        let r = with_transaction_recovery d x s' in
        rw (e, after_begin) ground
          (
            arith,
            counted.begin_ok s x e,
            after_fn-counts number max_retries r.0 x (count s') r.1 (recovery-counts x s'),
          )
    | inr (e', e) ↦
        rw (e, after_begin) ground
          (arith, counted.begin_err s e' e, retry-counts number max_retries e' (d.begin s).1)
  ]

  attempt-counts :
      (number max_retries : ℕ) (s : S)
      → let p = attempt d number max_retries s in Within (count s) (count p.1) (pass_commits p.0) 1
  unfolding attempt attempt_from
  attempt-counts number max_retries s =
      ground (arith, counted.ctx_err s, after_begin-counts number max_retries (d.ctx_err s).1)

  attempts-counts :
      (left number max_retries : ℕ) (last : Option E) (s : S)
      → (is_some last || ltb 0 left) ≡ true
      → let p = attempts d left number max_retries last s in
        Within (count s) (count p.1) (commits_of p.0) left
  unfolding attempts
  attempts-counts zero number max_retries last s h = ground arith
  attempts-counts (suc left) number max_retries last s h =
      elim (Pass-cases (attempt d number max_retries s).0) [
        | inl (r, e) ↦ rw (e, attempts) ground (arith, attempt-counts number max_retries s)
        | inr (e', e) ↦
            let s' = (attempt d number max_retries s).1 in
            rw (e, attempts) ground
              (
                arith,
                attempt-counts number max_retries s,
                attempts-counts left (suc number) max_retries (some e') s' refl,
              )
      ]

  -- However often begin, the function of the caller (a panic included), the context and the commit
  -- fail, a call leaves no transaction open; it has committed one transaction if it returns nil, and
  -- none if it returns an error; and it has called `begin` at most `maxRetries` times, or once where
  -- that is not positive.
  pub with_transaction_retry_context-counts :
      (has_ctx : Bool) (max_retries : ℤ) (s : S)
      → let p = with_transaction_retry_context d has_ctx max_retries s in
        Within (count s) (count p.1) (commits_of p.0) (at_least_one max_retries)
  unfolding with_transaction_retry_context
  with_transaction_retry_context-counts false max_retries s = ground arith
  with_transaction_retry_context-counts true max_retries s =
      attempts-counts (at_least_one max_retries) 1 (at_least_one max_retries) none s
        (at_least_one_lt max_retries)
