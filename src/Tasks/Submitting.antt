-- ===== src/Tasks/Submitting.antt =====
-- app/worker/service.go: the options of a task, the handler's before the caller's. `asynq` takes the last
-- option of a kind.
use goth_scaffold.Prelude.{
  ◌≡◌, refl, Text, codes, Bool, if◌then◌else◌, is_empty, is_pos, is_neg, not, List, [], ◌∷◌, ◌++◌,
  Option, none, some, ℤ, ◌∙◌, sym, ap,
}
use goth_scaffold.Tasks.{Handler, registered_handler}

-- `asynq.Option`
pub data TaskOption : Type 0 where
  retention : ℤ → TaskOption
  unique : ℤ → TaskOption
  task_id : Text → TaskOption
  timeout : ℤ → TaskOption
  queue : Text → TaskOption
  max_retry : ℤ → TaskOption
  group : Text → TaskOption

abbrev pub when : Bool → TaskOption → List TaskOption → List TaskOption
when b o rest = if b then o ∷ rest else rest

-- `mergeOptions`
abbrev pub merge_options : List TaskOption → List TaskOption → List TaskOption
merge_options handler_opts submit_opts = handler_opts ++ submit_opts

module _ {S E R D T : Type 0} where
  -- `handlerToAsynqOptions`
  unfoldable pub handler_options : Handler S E R D T → List TaskOption
  handler_options h = when (is_pos h.retention) (retention h.retention) (
      when (is_pos h.unique_ttl) (unique h.unique_ttl) (
        when (not (is_empty h.task_id)) (task_id h.task_id) (
          when (is_pos h.timeout) (timeout h.timeout) (
            when (not (is_empty h.queue)) (queue h.queue) (
              when (not (is_neg h.max_retry)) (max_retry h.max_retry)
                (when (not (is_empty h.group)) (group h.group) []))))))

  unfoldable pub default_options : Option (Handler S E R D T) → List TaskOption
  unfolding handler_options
  default_options none = []
  default_options (some h) = handler_options h

  -- The options with which `Submit` enqueues a task
  unfoldable pub submit : List (Handler S E R D T) → Text → List TaskOption → List TaskOption
  unfolding registered_handler default_options
  submit handlers name opts =
      merge_options (default_options (registered_handler name handlers)) opts

  -- `SubmitCritical`
  unfoldable pub submit_critical :
      List (Handler S E R D T) → Text → List TaskOption → List TaskOption
  unfolding submit
  submit_critical handlers name opts = submit handlers name (opts ++ queue (codes "critical") ∷ [])

  -- `SubmitUnique`
  unfoldable pub submit_unique :
      List (Handler S E R D T) → Text → ℤ → List TaskOption → List TaskOption
  unfolding submit
  submit_unique handlers name unique_ttl opts =
      submit handlers name (opts ++ unique unique_ttl ∷ [])

module _ {A : Type 0} where
  abbrev pub or_earlier : Option A → Option A → Option A
  or_earlier none rest = rest
  or_earlier (some a) rest = some a

  -- What the last option of a kind says
  unfoldable pub last_of : (TaskOption → Option A) → List TaskOption → Option A
  last_of pick [] = none
  last_of pick (o ∷ os) = or_earlier (last_of pick os) (pick o)

  or_earlier_assoc :
      (a b c : Option A) → or_earlier (or_earlier a b) c ≡ or_earlier a (or_earlier b c)
  or_earlier_assoc none b c = refl
  or_earlier_assoc (some a) b c = refl

  or_earlier-none : (a : Option A) → or_earlier a none ≡ a
  or_earlier-none none = refl
  or_earlier-none (some a) = refl

  last_of-append :
      (pick : TaskOption → Option A) (os os' : List TaskOption)
      → last_of pick (os ++ os') ≡ or_earlier (last_of pick os') (last_of pick os)
  unfolding last_of
  last_of-append pick [] os' = sym (or_earlier-none (last_of pick os'))
  last_of-append pick (o ∷ os) os' =
      ap (λ a. or_earlier a (pick o)) (last_of-append pick os os')
      ∙ or_earlier_assoc (last_of pick os') (last_of pick os) (pick o)

last_of-queued :
    {A : Type 0} (pick : TaskOption → Option A) (os os' : List TaskOption) (name : Text)
    → last_of pick (os ++ (os' ++ queue name ∷ []))
      ≡ or_earlier (pick (queue name)) (or_earlier (last_of pick os') (last_of pick os))
unfolding last_of
last_of-queued pick os os' name =
    last_of-append pick os (os' ++ queue name ∷ [])
    ∙ ap (λ a. or_earlier a (last_of pick os)) (last_of-append pick os' (queue name ∷ []))
    ∙ or_earlier_assoc (pick (queue name)) (last_of pick os') (last_of pick os)

abbrev pub queue_of : TaskOption → Option Text
queue_of (queue name) = some name
queue_of _ = none

module _ {S E R D T : Type 0} (handlers : List (Handler S E R D T)) (name : Text)
    (opts : List TaskOption) where
  -- Of each kind of option, a submitted task has the caller's, and the handler's where the caller gives
  -- none; a task that is submitted as critical is in the critical queue, whatever the others say.
  pub submit-last_of :
      {A : Type 0} (pick : TaskOption → Option A)
      → let defaults = default_options (registered_handler name handlers) in
        (last_of pick (submit handlers name opts)
          ≡ or_earlier (last_of pick opts) (last_of pick defaults))
        × (last_of queue_of (submit_critical handlers name opts) ≡ some (codes "critical"))
        × ((pick (queue (codes "critical")) ≡ none)
            → last_of pick (submit_critical handlers name opts)
              ≡ last_of pick (submit handlers name opts))
  unfolding submit submit_critical
  submit-last_of pick =
      let defaults = default_options (registered_handler name handlers) in
      (
        last_of-append pick defaults opts,
        last_of-queued queue_of defaults opts (codes "critical") ∙ refl,
        λ none_given.
            last_of-queued pick defaults opts (codes "critical")
            ∙ ap (λ a. or_earlier a (or_earlier (last_of pick opts) (last_of pick defaults)))
                none_given
            ∙ sym (last_of-append pick defaults opts),
      )
