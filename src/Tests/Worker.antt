-- ===== src/Tests/Worker.antt =====
-- The theorems on the lock, on the retries and on the options at fixed inputs.
use goth_scaffold.Prelude.{
  suc, ◌-◌, ◌≡◌, refl, Text, codes, true, false, if◌then◌else◌, ◌==◌, List, [], ◌∷◌, none, some, ok,
  pos, arith,
}
use goth_scaffold.Worker.{
  no_lock, Replies, works, fails, Event, tick, step, run, is_held_by, assign,
}
use goth_scaffold.Worker.Exclusion.{run-excludes, unexpiring_lock}
use goth_scaffold.Transactions.{Session, returned, with_transaction_retry_context}
use goth_scaffold.Transactions.Counting.{
  Counts, IsCounted, Within, commits_of, with_transaction_retry_context-counts,
}

abbrev fine : Replies
fine = record { setnx = works; set_expire = works; get = works; delete = works; starts = true }

abbrev half : Replies
half = record { setnx = works; set_expire = fails; get = works; delete = fails; starts = true }

abbrev events : List Event
events = tick (codes "a") fine ∷ tick (codes "b") fine ∷ tick (codes "a") fine ∷ []

a-acquired : (run events no_lock).acquired (codes "a") ≡ true
unfolding run assign
a-acquired = refl

run-excludes_example : codes "a" ≡ codes "a"
run-excludes_example = run-excludes events (codes "a") (codes "a") refl a-acquired a-acquired

unexpiring_lock_example :
    (is_held_by (codes "a") (run events (step (tick (codes "a") half) no_lock)).lock ≡ true)
    × ((run events (step (tick (codes "a") half) no_lock)).acquired (codes "b") ≡ false)
unexpiring_lock_example = unexpiring_lock events (codes "a") (codes "b") half refl refl refl

-- The first transaction fails, all later ones are committed.
abbrev flaky : Session Counts Text Unit
flaky = record {
  ctx_err = λ s. (none, s);
  begin = λ s.
      (ok tt, record { open_now = suc s.open_now; committed = s.committed; begun = suc s.begun });
  fn = λ x s. (returned (if s.begun == 1 then some (codes "deadlock") else none), s);
  commit = λ x s.
      (none, record { open_now = s.open_now - 1; committed = suc s.committed; begun = s.begun });
  rollback = λ x s. record { open_now = s.open_now - 1; committed = s.committed; begun = s.begun };
  wait = λ t s. (none, s);
  is_retryable = λ e. true;
  context_required = codes "transaction retry context required";
  panic_occurred = codes "panic occurred";
}

abbrev nothing : Counts
nothing = record { open_now = 0; committed = 0; begun = 0 }

flaky-IsCounted : IsCounted flaky (λ s. s)
flaky-IsCounted = record {
  ctx_err = λ s. ground arith;
  begin_ok = λ s x e. ground arith;
  begin_err = λ s e h. absurd (cc h);
  fn = λ x s. ground arith;
  commit_ok = λ x s e. ground arith;
  commit_err = λ x s e h. absurd (cc h);
  rollback = λ x s. ground arith;
  wait = λ t s. ground arith;
}

with_transaction_retry_context-counts_example :
    let p = with_transaction_retry_context flaky true (pos 3) nothing in
    Within nothing p.1 (commits_of p.0) 3
with_transaction_retry_context-counts_example =
    with_transaction_retry_context-counts flaky (λ s. s) flaky-IsCounted true (pos 3) nothing
