-- ===== src/Tests/Tasks.antt =====
-- The theorems on tasks and on the lock's end at fixed inputs: the state of a task counts what is written.
use goth_scaffold.Prelude.{ℕ, suc, ◌-◌, ◌≡◌, refl, Text, codes, true, [], ◌∷◌, none, some, ok, pos}
use goth_scaffold.Tasks.{
  PendingResult, TaskResult, result_writer, TaskInfo, Platform, Handler, result, process,
  registered_handler, write_success,
}
use goth_scaffold.Tasks.Lifecycle.{
  StageTrace, observed, observed_platform, Lifecycle, process-Lifecycle,
}
use goth_scaffold.Tasks.Results.{stage_error, read_result, perform_all, result-perform_all}
use goth_scaffold.Tasks.Submitting.{
  queue, queue_of, last_of, or_earlier, default_options, submit, submit_critical, submit-last_of,
}
use goth_scaffold.Worker.{World, Replies, works, tick, expiry, run, is_held_by}
use goth_scaffold.Worker.Takeover.{IsHealthy, run-takeover}

abbrev platform : Platform ℕ Text Text ℕ ℕ
platform = record {
  now = λ s. (s, s);
  unix = λ t. pos t;
  milliseconds = λ from to. pos (to - from);
  marshal = λ r. ok r.message;
  write_to = λ text s. (none, suc s);
  with_timeout = λ d s. s;
  cancel = λ s. s;
  not_found = codes "not found";
  as_response = λ e. none;
  cross_service = λ e. e;
}

-- It stages a result and then fails behind its run.
abbrev failing : Handler ℕ Text Text ℕ ℕ
failing = record {
  name = codes "report";
  retention = pos 0;
  unique_ttl = pos 0;
  task_id = [];
  timeout = pos 60;
  queue = codes "low";
  max_retry = pos 3;
  group = [];
  decode = λ text s. (none, s);
  before = λ t s. (none, t, s);
  run_task = λ t s. (none, write_success (codes "done") 7 t, s);
  after = λ t s. (some (codes "late"), t, s);
  error_caught = λ t r s. (some r, t, s);
}

process-Lifecycle_example :
    let start : StageTrace ℕ Text Text = record { state = 5; trace = [] } in
    let end =
      process
        (observed_platform platform)
        (observed failing)
        (codes "report")
        []
        result_writer
        start in
    Lifecycle platform end.2.trace end.0
process-Lifecycle_example = process-Lifecycle platform failing (codes "report") [] result_writer 5

abbrev staged_now : PendingResult ℕ
staged_now = record { success = true; err_code = []; message = codes "done"; payload = 7 }

abbrev staged : TaskInfo ℕ ℕ
staged = record {
  name = codes "report";
  sink = result_writer;
  began = 2;
  pending_result = some staged_now;
  cached = none;
}

abbrev done : TaskResult ℕ
done = record {
  success = true;
  duration_ms = pos 3;
  error = [];
  message = codes "done";
  payload = 7;
  started_at = pos 2;
  completed_at = pos 5;
}

staged-done : (result platform staged 5).0 ≡ some done
unfolding result
staged-done = refl

result-perform_all_example :
    (let x =
        perform_all platform
          (read_result ∷ stage_error (codes "E1") (codes "broken") 8 ∷ [])
          (staged, 5) in
      (result platform x.0 x.1).0)
    ≡ some done
result-perform_all_example =
    result-perform_all platform read_result (stage_error (codes "E1") (codes "broken") 8 ∷ [])
      staged 5 done refl staged-done

submit-last_of_example :
    let defaults = default_options (registered_handler (codes "report") (failing ∷ [])) in
    (last_of queue_of (submit (failing ∷ []) (codes "report") (queue (codes "high") ∷ []))
      ≡ or_earlier (last_of queue_of (queue (codes "high") ∷ [])) (last_of queue_of defaults))
    × (last_of queue_of
          (submit_critical (failing ∷ []) (codes "report") (queue (codes "high") ∷ []))
        ≡ some (codes "critical"))
    × ((queue_of (queue (codes "critical")) ≡ none)
        → last_of queue_of
            (submit_critical (failing ∷ []) (codes "report") (queue (codes "high") ∷ []))
          ≡ last_of queue_of (submit (failing ∷ []) (codes "report") (queue (codes "high") ∷ [])))
submit-last_of_example =
    submit-last_of (failing ∷ []) (codes "report") (queue (codes "high") ∷ []) queue_of

abbrev fine : Replies
fine = record { setnx = works; set_expire = works; get = works; delete = works; starts = true }

fine-IsHealthy : IsHealthy fine
fine-IsHealthy = record { setnx = refl; set_expire = refl; get = refl; starts = refl }

-- Another manager holds the lock, and this one runs without it.
abbrev split_brain : World
split_brain = record {
  lock = some (record { holder = codes "b"; expires = true });
  acquired = λ m. true;
  running = λ m. true;
}

run-takeover_example :
    let w = run (expiry ∷ tick (codes "a") fine ∷ tick (codes "a") fine ∷ []) split_brain in
    (w.running (codes "a") ≡ true)
    × (w.acquired (codes "a") ≡ true)
    × (is_held_by (codes "a") w.lock ≡ true)
run-takeover_example = run-takeover split_brain (codes "a") fine refl fine-IsHealthy
