-- ===== src/Tasks/Results.antt =====
-- app/worker/internal/handler.go: what is staged, shown and written.
use goth_scaffold.Prelude.{◌≡◌, refl, arith, Text, Bool, true, false, List, [], ◌∷◌, none, some, ok}
use goth_scaffold.Tasks.{
  TaskInfo, TaskResult, PendingResult, result_writer, Platform, result, flush_result,
  marshal_result, write_success, write_dry_run_success, write_error,
}

-- What a handler can do to its result
pub data Action (D : Type 0) : Type 0 where
  stage_success : Text → D → Action D
  stage_dry_run : D → Action D
  stage_error : Text → Text → D → Action D
  read_result flush : Action D

abbrev pub is_reading : {D : Type 0} → Action D → Bool
is_reading read_result = true
is_reading flush = true
is_reading _ = false

module _ {S E R D T : Type 0} (p : Platform S E R D T) where
  unfoldable pub perform : Action D → TaskInfo D T × S → TaskInfo D T × S
  unfolding result flush_result
  perform (stage_success message value) (t, s) = (write_success message value t, s)
  perform (stage_dry_run value) (t, s) = (write_dry_run_success value t, s)
  perform (stage_error code message value) (t, s) = (write_error code message value t, s)
  perform read_result (t, s) = (let (r, t', s') = result p t s in (t', s'))
  perform flush (t, s) = (let (e, t', s') = flush_result p t s in (t', s'))

  unfoldable pub perform_all : List (Action D) → TaskInfo D T × S → TaskInfo D T × S
  unfolding perform
  perform_all [] x = x
  perform_all (a ∷ acts) x = perform_all acts (perform a x)

  perform-cached :
      (a : Action D) (t : TaskInfo D T) (s : S) (r : TaskResult D)
      → t.cached ≡ some r
      → (perform a (t, s)).0.cached ≡ some r
  unfolding perform result flush_result
  perform-cached (stage_success message value) t s r h = h
  perform-cached (stage_dry_run value) t s r h = h
  perform-cached (stage_error code message value) t s r h = h
  perform-cached read_result t s r h = ground (arith, h)
  perform-cached flush t s r h = ground (arith, h)

  perform_all-cached :
      (acts : List (Action D)) (t : TaskInfo D T) (s : S) (r : TaskResult D)
      → t.cached ≡ some r
      → (perform_all acts (t, s)).0.cached ≡ some r
  unfolding perform_all
  perform_all-cached [] t s r h = h
  perform_all-cached (a ∷ acts) t s r h =
      perform_all-cached acts (perform a (t, s)).0 (perform a (t, s)).1 r (perform-cached a t s r h)

  result-cached :
      (t : TaskInfo D T) (s : S) (r : TaskResult D) → t.cached ≡ some r → (result p t s).0 ≡ some r
  unfolding result
  result-cached t s r h = rw (h) refl

  reading-cached :
      (a : Action D) (t : TaskInfo D T) (s : S) (r : TaskResult D)
      → is_reading a ≡ true
      → (result p t s).0 ≡ some r
      → (perform a (t, s)).0.cached ≡ some r
  unfolding perform result flush_result
  reading-cached a t s r b h = ground (arith, b, h)

  -- Once the result of a task has been read or flushed it is the result for good: whatever is
  -- staged, read or flushed afterwards, Result returns the same one.
  pub result-perform_all :
      (a : Action D) (acts : List (Action D)) (t : TaskInfo D T) (s : S) (r : TaskResult D)
      → is_reading a ≡ true
      → (result p t s).0 ≡ some r
      → (let x = perform_all (a ∷ acts) (t, s) in (result p x.0 x.1).0) ≡ some r
  unfolding perform_all
  result-perform_all a acts t s r b h =
      let x = perform_all (a ∷ acts) (t, s) in
      result-cached x.0 x.1 r (perform_all-cached acts _ _ r (reading-cached a t s r b h))

  -- A flush of a staged result to a result writer, where the result can be marshalled, writes the
  -- text of the result that Result shows before and after it, and returns the writer's error; a
  -- second flush then does nothing.
  pub flush_result-written :
      (t : TaskInfo D T) (s : S) (staged : PendingResult D) (text : Text)
      → t.pending_result ≡ some staged
      → t.sink ≡ result_writer
      → (let (made, t', s') = result p t s in marshal_result p made) ≡ ok text
      → let (made, t₁, s₁) = result p t s in
        let (e, t₂, s₂) = flush_result p t s in
        ((e, s₂) ≡ p.write_to text s₁)
        × ((result p t₂ s₂).0 ≡ made)
        × (flush_result p t₂ s₂ ≡ (none, t₂, s₂))
  unfolding flush_result result
  flush_result-written t s staged text h k m = ground (arith, h, k, m)
