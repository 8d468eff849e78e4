-- ===== src/Tasks.antt =====
-- app/worker/internal/handler.go and app/worker/service.go: the result that a task stages, and the life
-- of a task, from the queue and in the process. Logging and the message on a shutdown are left out.
pub mod Results
pub mod Lifecycle
pub mod Submitting
pub mod Payloads
use goth_scaffold.Prelude.{
  ℕ, ltb, Text, codes, Bool, true, false, if◌then◌else◌, Option, none, some, Result, ok, err, ℤ,
  pos, negsuc, is_pos, List, [], ◌∷◌, text_eq,
}

-- `pendingResult`
pub record PendingResult (D : Type 0) : Type 0 where
  pub success : Bool
  pub err_code : Text
  pub message : Text
  pub payload : D

pub record TaskResult (D : Type 0) : Type 0 where
  pub success : Bool
  pub duration_ms : ℤ
  pub error : Text
  pub message : Text
  pub payload : D
  pub started_at : ℤ
  pub completed_at : ℤ

-- The `io.Writer` of a task: none, a nil pointer behind the interface, or one that writes
pub data Sink : Type 0 where
  no_writer nil_writer result_writer : Sink

-- `TaskInfo`, without the payload, which only the handler reads
pub record TaskInfo (D T : Type 0) : Type 0 where
  pub name : Text
  pub sink : Sink
  pub began : T
  pub pending_result : Option (PendingResult D)
  pub cached : Option (TaskResult D)

-- What the tasks call: the clock, `json.Marshal`, the result writer, a context with a timeout. `S` is
-- the state of all of them and of the handlers, the execution context included, and `R` is
-- `ghttp.ErrorResponse`.
pub record Platform (S E R D T : Type 0) : Type 0 where
  pub now : S → T × S
  pub unix : T → ℤ
  pub milliseconds : T → T → ℤ
  pub marshal : TaskResult D → Result E Text
  pub write_to : Text → S → Option E × S
  pub with_timeout : ℤ → S → S
  pub cancel : S → S
  pub not_found : E
  pub as_response : E → Option R
  pub cross_service : E → R

-- `Handler`; a duration is in nanoseconds.
pub record Handler (S E R D T : Type 0) : Type 0 where
  pub name : Text
  pub retention : ℤ
  pub unique_ttl : ℤ
  pub task_id : Text
  pub timeout : ℤ
  pub queue : Text
  pub max_retry : ℤ
  pub group : Text
  pub decode : Text → S → Option E × S
  pub before : TaskInfo D T → S → Option E × TaskInfo D T × S
  pub run_task : TaskInfo D T → S → Option E × TaskInfo D T × S
  pub after : TaskInfo D T → S → Option E × TaskInfo D T × S
  pub error_caught : TaskInfo D T → R → S → Option E × TaskInfo D T × S

module _ {D T : Type 0} where
  -- `WriteSuccess`
  abbrev pub write_success : Text → D → TaskInfo D T → TaskInfo D T
  write_success message value t = record t {
    pending_result =
        some (record { success = true; err_code = []; message = message; payload = value });
  }

  -- `WriteDryRunSuccess`
  abbrev pub write_dry_run_success : D → TaskInfo D T → TaskInfo D T
  write_dry_run_success value t = write_success (codes "dry_run") value t

  -- `WriteError`
  abbrev pub write_error : Text → Text → D → TaskInfo D T → TaskInfo D T
  write_error code message value t = record t {
    pending_result =
        some (record { success = false; err_code = code; message = message; payload = value });
  }

module _ {S E R D T : Type 0} where
  -- `Register`, in `handlerRegistry`
  abbrev pub register_handler :
      Handler S E R D T → List (Handler S E R D T) → List (Handler S E R D T)
  register_handler h handlers = h ∷ handlers

  -- `handlerRegistry[...]`
  unfoldable pub registered_handler : Text → List (Handler S E R D T) → Option (Handler S E R D T)
  unfolding text_eq
  registered_handler name [] = none
  registered_handler name (h ∷ hs) =
      let rest = registered_handler name hs in if text_eq h.name name then some h else rest

module _ {S E R D T : Type 0} (p : Platform S E R D T) where
  -- `NewTaskInfo`
  abbrev pub new_task_info : Text → Sink → S → TaskInfo D T × S
  new_task_info name sink s =
      let (now, s') = p.now s in
      (record { name = name; sink = sink; began = now; pending_result = none; cached = none }, s')

  abbrev write_sink : Sink → Text → S → Option E × S
  write_sink no_writer text s = (none, s)
  write_sink nil_writer text s = (none, s)
  write_sink result_writer text s = p.write_to text s

  -- `Write`, without the number of bytes
  abbrev pub write : TaskInfo D T → Text → S → Option E × S
  write t text s = write_sink t.sink text s

  abbrev build_result : PendingResult D → T → T → TaskResult D
  build_result r began now = record {
    success = r.success;
    duration_ms = p.milliseconds began now;
    error = r.err_code;
    message = r.message;
    payload = r.payload;
    started_at = p.unix began;
    completed_at = p.unix now;
  }

  abbrev make_result :
      TaskInfo D T
      → Option (TaskResult D)
      → Option (PendingResult D)
      → S
      → Option (TaskResult D) × TaskInfo D T × S
  make_result t (some r) pending s = (some r, t, s)
  make_result t none none s = (none, t, s)
  make_result t none (some r) s =
      let (now, s') = p.now s in
      (
        some (build_result r t.began now),
        record t { cached = some (build_result r t.began now) },
        s',
      )

  -- `Result`
  unfoldable pub result : TaskInfo D T → S → Option (TaskResult D) × TaskInfo D T × S
  result t s = make_result t t.cached t.pending_result s

  abbrev pub marshal_result : Option (TaskResult D) → Result E Text
  marshal_result none = ok (codes "null")
  marshal_result (some r) = p.marshal r

  abbrev flush_text : Result E Text → TaskInfo D T → S → Option E × TaskInfo D T × S
  flush_text (err e) t s = (some e, t, s)
  flush_text (ok text) t s =
      let (e, s') = write t text s in (e, record t { pending_result = none }, s')

  abbrev flush_pending : Option (PendingResult D) → TaskInfo D T → S → Option E × TaskInfo D T × S
  unfolding result
  flush_pending none t s = (none, t, s)
  flush_pending (some r) t s =
      let (made, t', s') = result t s in flush_text (marshal_result made) t' s'

  -- `FlushResult`
  unfoldable pub flush_result : TaskInfo D T → S → Option E × TaskInfo D T × S
  unfolding flush_pending
  flush_result t s = flush_pending t.pending_result t s

  abbrev response_or : E → Option R → R
  response_or e (some r) = r
  response_or e none = p.cross_service e

  -- `_WrapError`
  abbrev pub wrap_error : E → R
  wrap_error e = response_or e (p.as_response e)

  -- The `if err := ...; err != nil` behind a stage: `ErrorCaught` has the last word on an error.
  abbrev pub and_then :
      Handler S E R D T
      → Option E × TaskInfo D T × S
      → (TaskInfo D T → S → Option E × TaskInfo D T × S)
      → Option E × TaskInfo D T × S
  and_then h (some e, t, s) next = h.error_caught t (wrap_error e) s
  and_then h (none, t, s) next = next t s

  abbrev pub flush_and_return : TaskInfo D T → S → Option E × TaskInfo D T × S
  unfolding flush_result
  flush_and_return t s = let (e, t', s') = flush_result t s in (none, t', s')

  -- `_Process`
  unfoldable pub process : Handler S E R D T → Text → Text → Sink → S → Option E × TaskInfo D T × S
  unfolding flush_and_return
  process h name payload sink s =
      let (t, s') = new_task_info name sink (h.decode payload s).1 in
      and_then h (h.before t s')
        (λ t s. and_then h (h.run_task t s) (λ t s. and_then h (h.after t s) flush_and_return))

  -- `ProcessTask`
  unfoldable pub process_task : Handler S E R D T → Text → Text → S → Option E
  unfolding process
  process_task h name payload s = (process h name payload result_writer s).0

  abbrev execute_with :
      Option (Handler S E R D T) → Text → Text → S → Option (TaskResult D) × Option E × S
  unfolding process result
  execute_with none name payload s = (none, some p.not_found, s)
  execute_with (some h) name payload s =
      let timed = is_pos h.timeout in
      let (e, t, s') =
        process h name payload no_writer (if timed then p.with_timeout h.timeout s else s) in
      let (r, t', s'') = result t s' in (r, e, if timed then p.cancel s'' else s'')

  -- `Execute`
  unfoldable pub execute :
      List (Handler S E R D T) → Text → Text → S → Option (TaskResult D) × Option E × S
  unfolding execute_with registered_handler
  execute handlers name payload s = execute_with (registered_handler name handlers) name payload s
