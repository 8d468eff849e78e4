-- ===== src/Worker/Scheduled.antt =====
-- app/worker/service.go: `_SchedulerRunner`, which registers the scheduled tasks when it is started and takes
-- them back when it is shut down, the registration of one of them, and the name of a manager's lock.
use goth_scaffold.Prelude.{
  Text, codes, is_empty, Bool, true, false, not, if◌then◌else◌, List, [], ◌∷◌, ◌++◌, keep, any,
  Option, none, some, ◌≡◌, refl, ap, ◌∙◌, arith, append-nil, text_eq, text_eq_refl, keep-append,
  if_rule,
}

-- asynq's scheduler and its inspector, none where there is none, on a state `S`; an error of `Unregister` and of
-- the deletions is only logged, `queues` is none on an error.
pub record CronScheduler (S T O : Type 0) : Type 0 where
  pub register_entry : Text → T → List O → S → Text × S
  pub unregister_entry : Text → S → S
  pub run_scheduler : S → S
  pub shutdown_scheduler : S → S
  pub has_inspector : Bool
  pub queues : S → Option (List Text)
  pub delete_all_scheduled : Text → S → S

-- The fields of the runner, with the state of its scheduler
pub record Runner (S : Type 0) : Type 0 where
  pub entry_ids : List Text
  pub is_running : Bool
  pub scheduler_state : S

-- `_NewSingleInstanceManager`: the key and the host of the lock; `redis_key` is `redis.Key`.
abbrev pub lock_key : (Text → Text → Text) → Text → Text → Text
lock_key redis_key namespace name =
    redis_key (codes "WORKER") (codes "SIL:" ++ (namespace ++ (b':' ∷ name)))

abbrev pub lock_host : Text → Text
lock_host hostname = if is_empty hostname then codes "unknown" else hostname

module _ {S T O : Type 0} (d : CronScheduler S T O) where
  abbrev options_or_none : Option (List O) → List O
  options_or_none none = []
  options_or_none (some opts) = opts

  -- `RegisterSchedule`, with the options of the handler that is registered for the task; the identifier is
  -- what comes back, also on an error.
  unfoldable pub register_schedule : (T → Option (List O)) → Text → T → S → Text × S
  register_schedule registered cron_spec task s =
      d.register_entry cron_spec task (options_or_none (registered task)) s

  abbrev pub registered_by : Option (S → List Text × S) → Runner S → Runner S
  registered_by none r = r
  registered_by (some f) r = record r {
    entry_ids = (f r.scheduler_state).0;
    scheduler_state = (f r.scheduler_state).1;
  }

  -- `_SchedulerRunner.Start`
  unfoldable pub runner_start : Option (S → List Text × S) → Runner S → Runner S
  runner_start register_func r =
      let r1 = registered_by register_func r in
      record r1 { is_running = true; scheduler_state = d.run_scheduler r1.scheduler_state }

  abbrev pub unregister_all : List Text → S → S
  unregister_all [] s = s
  unregister_all (id ∷ ids) s = unregister_all ids (d.unregister_entry id s)

  abbrev pub delete_queues : List Text → S → S
  delete_queues [] s = s
  delete_queues (q ∷ qs) s = delete_queues qs (d.delete_all_scheduled q s)

  abbrev pub delete_queues_of : Option (List Text) → S → S
  delete_queues_of none s = s
  delete_queues_of (some qs) s = delete_queues qs s

  abbrev pub delete_scheduled : S → S
  delete_scheduled s = if d.has_inspector then delete_queues_of (d.queues s) s else s

  -- `_SchedulerRunner.Shutdown`
  unfoldable pub runner_shutdown : Runner S → Runner S
  runner_shutdown r =
      let s = delete_scheduled (unregister_all r.entry_ids r.scheduler_state) in
      if r.is_running
      then record { entry_ids = []; is_running = false; scheduler_state = d.shutdown_scheduler s }
      else record { entry_ids = []; is_running = false; scheduler_state = s }

abbrev pub is_none_of : List Text → Text → Bool
unfolding text_eq
is_none_of ids e = not (any (λ id. text_eq e id) ids)

-- What is seen of the scheduler: its entries, which the two functions change and the others leave alone.
pub record Entries {S T O : Type 0} (d : CronScheduler S T O) (f : S → List Text × S) : Type 0 where
  pub entries_of : S → List Text
  pub appended : (s : S) → entries_of (f s).1 ≡ entries_of s ++ (f s).0
  pub unregistered :
      (id : Text) (s : S)
      → entries_of (d.unregister_entry id s) ≡ keep (λ e. not (text_eq e id)) (entries_of s)
  pub after_run : (s : S) → entries_of (d.run_scheduler s) ≡ entries_of s
  pub after_shutdown : (s : S) → entries_of (d.shutdown_scheduler s) ≡ entries_of s
  pub after_delete : (q : Text) (s : S) → entries_of (d.delete_all_scheduled q s) ≡ entries_of s

keep-is_none_of :
    (id : Text) (ids es : List Text)
    → keep (is_none_of (id ∷ ids)) es ≡ keep (is_none_of ids) (keep (λ e. not (text_eq e id)) es)
unfolding is_none_of
keep-is_none_of id ids [] = refl
keep-is_none_of id ids (e ∷ es) = ground (arith, keep-is_none_of id ids es)

keep_comm : (p q : Text → Bool) (es : List Text) → keep p (keep q es) ≡ keep q (keep p es)
keep_comm p q [] = refl
keep_comm p q (e ∷ es) = ground (arith, keep_comm p q es)

keep-is_none_of_self : (ids : List Text) → keep (is_none_of ids) ids ≡ []
keep-is_none_of_self [] = refl
keep-is_none_of_self (id ∷ ids) =
    let other = λ (e : Text). not (text_eq e id) in
    keep-is_none_of id ids (id ∷ ids)
    ∙ rw (text_eq_refl id)
        (keep_comm (is_none_of ids) other ids ∙ ap (keep other) (keep-is_none_of_self ids))

keep-is_none_of_nil : (es : List Text) → keep (is_none_of []) es ≡ es
unfolding is_none_of
keep-is_none_of_nil [] = refl
keep-is_none_of_nil (e ∷ es) = ap (λ t. e ∷ t) (keep-is_none_of_nil es)

module _ {S T O : Type 0} (d : CronScheduler S T O) (f : S → List Text × S)
    (seen : Entries d f) where
  unregister_all-entries :
      (ids : List Text) (s : S)
      → seen.entries_of (unregister_all d ids s) ≡ keep (is_none_of ids) (seen.entries_of s)
  unregister_all-entries [] s = rw (keep-is_none_of_nil (seen.entries_of s)) refl
  unregister_all-entries (id ∷ ids) s =
      unregister_all-entries ids (d.unregister_entry id s)
      ∙ rw (seen.unregistered id s, keep-is_none_of id ids (seen.entries_of s)) refl

  delete_queues-entries :
      (qs : List Text) (s : S) → seen.entries_of (delete_queues d qs s) ≡ seen.entries_of s
  delete_queues-entries [] s = refl
  delete_queues-entries (q ∷ qs) s =
      delete_queues-entries qs (d.delete_all_scheduled q s) ∙ seen.after_delete q s

  delete_queues_of-entries :
      (qs : Option (List Text)) (s : S)
      → seen.entries_of (delete_queues_of d qs s) ≡ seen.entries_of s
  delete_queues_of-entries none s = refl
  delete_queues_of-entries (some qs) s = delete_queues-entries qs s

  delete_scheduled-entries : (s : S) → seen.entries_of (delete_scheduled d s) ≡ seen.entries_of s
  delete_scheduled-entries s =
      if_rule (λ t. seen.entries_of t ≡ seen.entries_of s) d.has_inspector
        (λ h. delete_queues_of-entries (d.queues s) s) (λ h. refl)

  -- What was registered when the runner was started is no entry of the scheduler any more once the runner has been shut down, all other entries are there
  -- as before, and the runner is not running and knows no entry.
  pub runner_shutdown-runner_start :
      (r : Runner S)
      → (seen.entries_of (runner_shutdown d (runner_start d (some f) r)).scheduler_state
          ≡ keep (is_none_of (f r.scheduler_state).0) (seen.entries_of r.scheduler_state))
        × ((runner_shutdown d (runner_start d (some f) r)).entry_ids ≡ [])
        × ((runner_shutdown d (runner_start d (some f) r)).is_running ≡ false)
  unfolding runner_shutdown runner_start
  runner_shutdown-runner_start r =
      let ids = (f r.scheduler_state).0 in
      let s1 = d.run_scheduler (f r.scheduler_state).1 in
      let s2 = unregister_all d ids s1 in
      let before = seen.entries_of r.scheduler_state in
      (
        seen.after_shutdown (delete_scheduled d s2)
            ∙ (delete_scheduled-entries s2
                ∙ (unregister_all-entries ids s1
                    ∙ rw
                        (
                          seen.after_run (f r.scheduler_state).1,
                          seen.appended r.scheduler_state,
                          keep-append (is_none_of ids) before ids,
                          keep-is_none_of_self ids,
                        )
                        (append-nil (keep (is_none_of ids) before)))),
        refl,
        refl,
      )
