-- ===== src/Tasks/Payloads.antt =====
-- app/worker/task.go and app/worker/internal/handler.go: tasks and the payloads in them.
use goth_scaffold.Prelude.{
  Text, codes, is_empty, false, if◌then◌else◌, ◌∷◌, ◌++◌, Option, none, some, Result, ok, err, ◌≡◌,
  refl,
}

-- A payload that is not nil, by what its `Encode` returns
pub record EncodedPayload (E : Type 0) : Type 0 where
  pub encoded : Text
  pub encode_error : Option E

-- `NewTask`: the name of a task, and its bytes, nil for a nil payload; an error of `Encode` is only logged.
pub record Task : Type 0 where
  pub task_name : Text
  pub task_payload : Option Text

abbrev pub encoded_or_nil : {E : Type 0} → Option (EncodedPayload E) → Option Text
encoded_or_nil none = none
encoded_or_nil (some p) = some p.encoded

unfoldable pub new_task : {E : Type 0} → Text → Option (EncodedPayload E) → Task
new_task taskname payload = record { task_name = taskname; task_payload = encoded_or_nil payload }

-- `BasePayload.Encode`
abbrev pub base_encode : Text
base_encode = codes "{}"

module _ {P E : Type 0} (unmarshal : Text → P → Option E × P) where
  -- `DecodePayload`, into the value `self`
  unfoldable pub decode_payload : Text → P → Option E × P
  decode_payload text self = if is_empty text then (none, self) else unmarshal text self

  -- Where `json.Unmarshal` reads back what `json.Marshal` wrote, so does the payload of the task, into any value.
  pub decode_payload-new_task :
      (marshal : P → Text)
      → ((p self : P) → unmarshal (marshal p) self ≡ (none, p))
      → ((p : P) → is_empty (marshal p) ≡ false)
      → (taskname : Text) (p self : P)
      → ((new_task {E = E} taskname
            (some (record { encoded = marshal p; encode_error = none }))).task_payload
          ≡ some (marshal p))
        × (decode_payload (marshal p) self ≡ (none, p))
  unfolding decode_payload new_task
  decode_payload-new_task marshal read_back not_empty taskname p self =
      (refl, rw (not_empty p, read_back p self) refl)

-- `GetPayloadByTaskname`, with the registry of handlers and the base payload
abbrev pub get_payload_by_taskname : {P : Type 0} → (Text → Option P) → P → Text → P
get_payload_by_taskname registry base taskname = elim (registry taskname) [
  | some p ↦ p
  | none ↦ base
]

-- `TaskFuture`, with the inspector's information on the task
pub record TaskFuture : Type 0 where
  pub future_queue : Text
  pub future_id : Text

abbrev pub id_of_future : TaskFuture → Text
id_of_future t = t.future_queue ++ (b':' ∷ t.future_id)

-- `Update`, with what `GetTaskInfo` returns for a queue and an id
abbrev pub stored_future : {E : Type 0} → Result E TaskFuture → TaskFuture → Option E × TaskFuture
stored_future (ok info) t = (none, info)
stored_future (err e) t = (some e, t)

unfoldable pub update_future :
    {E : Type 0} → (Text → Text → Result E TaskFuture) → TaskFuture → Option E × TaskFuture
update_future get_task_info t = stored_future (get_task_info t.future_queue t.future_id) t
