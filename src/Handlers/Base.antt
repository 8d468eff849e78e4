-- ===== src/Handlers/Base.antt =====
-- app/handlers/endpoints/handlertask.go: what the base handler answers to each method and to an error.
use goth_scaffold.Prelude.{ℕ, ◌==◌, Text, is_empty, Bool, if◌then◌else◌, Option}

pub data Method : Type 0 where
  index_method get_method post_method put_method delete_method : Method
  options_method patch_method trace_method connect_method : Method

-- What a method of the base handler does to the response, and the error that it returns
pub data MethodAnswer : Type 0 where
  untouched not_implemented : MethodAnswer
  status_set : ℕ → MethodAnswer

-- The methods `Index` to `Connect`; 405 is `httpstatus.MethodNotAllowed`.
unfoldable pub base_answer : Method → MethodAnswer
base_answer index_method = not_implemented
base_answer get_method = status_set 405
base_answer post_method = status_set 405
base_answer put_method = status_set 405
base_answer delete_method = status_set 405
base_answer options_method = untouched
base_answer patch_method = status_set 405
base_answer trace_method = status_set 405
base_answer connect_method = status_set 405

-- `ErrorCaught`: the data of the error, with what its message holds where that is JSON, and whether the error is
-- written to the response, which has a status or 0
unfoldable pub base_error_caught : {J : Type 0} → Option J → ℕ → Option J × Bool
base_error_caught message status = (message, status == 0)

-- `Host`
abbrev pub host_of : Text → Text → Text
host_of request_host domain_name = if is_empty request_host then domain_name else request_host
