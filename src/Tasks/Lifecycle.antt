-- ===== src/Tasks/Lifecycle.antt =====
-- app/worker/service.go: the order of the stages of a task, and what becomes of an error.
use goth_scaffold.Prelude.{◌≡◌, refl, Text, List, [], ◌∷◌, Option, none, some, arith}
use goth_scaffold.Tasks.{
  TaskInfo, Sink, Platform, Handler, wrap_error, and_then, flush_result, result, process,
  new_task_info,
}

-- A stage that has run, with its error
pub data StageEvent (E R : Type 0) : Type 0 where
  before_ran run_ran after_ran : Option E → StageEvent E R
  caught_ran : R → Option E → StageEvent E R

-- A state with the stages so far, the last one first
pub record StageTrace (S E R : Type 0) : Type 0 where
  pub state : S
  pub trace : List (StageEvent E R)

module _ {S E R D T : Type 0} where
  abbrev pub observed_platform : Platform S E R D T → Platform (StageTrace S E R) E R D T
  observed_platform p = record {
    now = λ s. (let (t, s') = p.now s.state in (t, record s { state = s' }));
    unix = p.unix;
    milliseconds = p.milliseconds;
    marshal = p.marshal;
    write_to = λ text s. (let (e, s') = p.write_to text s.state in (e, record s { state = s' }));
    with_timeout = λ d s. record s { state = p.with_timeout d s.state };
    cancel = λ s. record s { state = p.cancel s.state };
    not_found = p.not_found;
    as_response = p.as_response;
    cross_service = p.cross_service;
  }

  abbrev observed_stage :
      (Option E → StageEvent E R)
      → (TaskInfo D T → S → Option E × TaskInfo D T × S)
      → TaskInfo D T
      → StageTrace S E R
      → Option E × TaskInfo D T × StageTrace S E R
  observed_stage event stage t s =
      let (e, t', s') = stage t s.state in (e, t', record { state = s'; trace = event e ∷ s.trace })

  -- The handler, with a record of its stages
  abbrev pub observed : Handler S E R D T → Handler (StageTrace S E R) E R D T
  observed h = record {
    name = h.name;
    retention = h.retention;
    unique_ttl = h.unique_ttl;
    task_id = h.task_id;
    timeout = h.timeout;
    queue = h.queue;
    max_retry = h.max_retry;
    group = h.group;
    decode = λ text s. (let (e, s') = h.decode text s.state in (e, record s { state = s' }));
    before = observed_stage before_ran h.before;
    run_task = observed_stage run_ran h.run_task;
    after = observed_stage after_ran h.after;
    error_caught = λ t r s. observed_stage (caught_ran r) (λ t s. h.error_caught t r s) t s;
  }

  -- The lives that a task can have, with the error at the end
  pub data Lifecycle (p : Platform S E R D T) : List (StageEvent E R) → Option E → Type 0 where
    completed : Lifecycle p (after_ran none ∷ run_ran none ∷ before_ran none ∷ []) none
    before_failed :
        (e : E) (e' : Option E)
        → Lifecycle p (caught_ran (wrap_error p e) e' ∷ before_ran (some e) ∷ []) e'
    run_failed :
        (e : E) (e' : Option E)
        → Lifecycle p (caught_ran (wrap_error p e) e' ∷ run_ran (some e) ∷ before_ran none ∷ []) e'
    after_failed :
        (e : E) (e' : Option E)
        → Lifecycle p
            (caught_ran (wrap_error p e) e'
              ∷ after_ran (some e)
              ∷ run_ran none
              ∷ before_ran none
              ∷ [])
            e'

and_then_rule :
    {S E R D T : Type 0} (p : Platform S E R D T) (h : Handler S E R D T)
    (P : Option E × TaskInfo D T × S → Type 0) (x : Option E × TaskInfo D T × S)
    (next : TaskInfo D T → S → Option E × TaskInfo D T × S)
    → ((e : E) → x.0 ≡ some e → P (h.error_caught x.1 (wrap_error p e) x.2))
    → (x.0 ≡ none → P (next x.1 x.2))
    → P (and_then p h x next)
and_then_rule p h P (some e, t, s) next f g = f e refl
and_then_rule p h P (none, t, s) next f g = g refl

flush_result-trace :
    {S E R D T : Type 0} (p : Platform S E R D T) (t : TaskInfo D T) (s : StageTrace S E R)
    → (flush_result (observed_platform p) t s).2.trace ≡ s.trace
unfolding flush_result result
flush_result-trace p t s = ground arith

-- Each stage of a task runs at most once and only where the stages before it gave no error; the
-- first error goes to ErrorCaught, wrapped, once, and what that returns is what the task returns;
-- a task without an error in its stages returns none.
pub process-Lifecycle :
    {S E R D T : Type 0} (p : Platform S E R D T) (h : Handler S E R D T) (name payload : Text)
    (sink : Sink) (s : S)
    → let start : StageTrace S E R = record { state = s; trace = [] } in
      let end = process (observed_platform p) (observed h) name payload sink start in
      Lifecycle p end.2.trace end.0
unfolding process
process-Lifecycle {S} {E} {R} {D} {T} p h name payload sink s =
    let start : StageTrace S E R = record { state = s; trace = [] } in
    let q = observed_platform p in
    let o = observed h in
    let (t, s') = new_task_info q name sink (o.decode payload start).1 in
    let P : Option E × TaskInfo D T × StageTrace S E R → Type 0 =
      (λ x. Lifecycle p x.2.trace x.0) in
    and_then_rule q o P (o.before t s') _ (λ e b. rw (b) (before_failed e _))
      (λ b.
        and_then_rule q o P (o.run_task _ _) _ (λ e r. rw (r, b) (run_failed e _))
          (λ r.
            and_then_rule q o P (o.after _ _) _ (λ e a. rw (a, r, b) (after_failed e _))
              (λ a. rw (flush_result-trace p _ _, a, r, b) completed)))
