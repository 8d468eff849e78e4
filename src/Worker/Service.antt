-- ===== src/Worker/Service.antt =====
-- app/worker/service.go: the start and the stop of the client, of the servers and of the scheduler, and what of
-- it stays behind.
use goth_scaffold.Prelude.{
  Text, codes, Bool, true, false, not, ◌||◌, if◌then◌else◌, List, [], ◌∷◌, ◌++◌, Option, none, some,
}

-- The calls of other code: of asynq's clients and servers, and of the managers of Worker.antt, by name
pub data ServiceCall : Type 0 where
  open_client open_inspector set_submitter close_client close_inspector open_scheduler : ServiceCall
  register_tasks : ServiceCall
  start_server stop_server start_manager stop_manager : Text → ServiceCall

-- The variables of the package; `client` and `inspector` as whether they are set, the servers by their queues
pub record Service : Type 0 where
  pub client_set : Bool
  pub inspector_set : Bool
  pub scheduler_set : Bool
  pub scheduler_manager_set : Bool
  pub srv_list : List Text
  pub single_srv_list : List Text
  pub shutting_down : Bool
  pub calls : List ServiceCall

abbrev pub call : List ServiceCall → Service → Service
call cs s = record s { calls = s.calls ++ cs }

unfoldable pub start_client : Service → Service
start_client s =
    if s.client_set || s.inspector_set
    then s
    else call (open_client ∷ open_inspector ∷ set_submitter ∷ [])
        (record s { client_set = true; inspector_set = true })

abbrev pub stop_inspector : Service → Service
stop_inspector s =
    if s.inspector_set then call (close_inspector ∷ []) (record s { inspector_set = false }) else s

unfoldable pub stop_client : Service → Service
stop_client s =
    stop_inspector
      (if s.client_set then call (close_client ∷ []) (record s { client_set = false }) else s)

unfoldable pub register_service : Service → Service
register_service s =
    call (open_scheduler ∷ register_tasks ∷ start_manager (codes "scheduler") ∷ [])
      (record s { scheduler_set = true; scheduler_manager_set = true })

unfoldable pub unregister_service : Service → Service
unregister_service s =
    record (if s.scheduler_manager_set
      then call (stop_manager (codes "scheduler") ∷ []) (record s { scheduler_manager_set = false })
      else s) { scheduler_set = false }

-- The loop that starts the servers, up to the first error, which is a panic
abbrev pub start_servers : (Text → Bool) → List Text → Service → Bool × Service
start_servers starts [] s = (true, s)
start_servers starts (q ∷ qs) s =
    let rest = start_servers starts qs (call (start_server q ∷ []) s) in
    if starts q then rest else (false, call (start_server q ∷ []) s)

abbrev pub all_calls : (Text → ServiceCall) → List Text → Service → Service
all_calls f [] s = s
all_calls f (q ∷ qs) s = all_calls f qs (call (f q ∷ []) s)

abbrev pub start_single : Bool × Service → Bool × Service
start_single (false, s) = (false, s)
start_single (true, s) =
    let s1 = record s { single_srv_list = s.single_srv_list ++ (codes "unique" ∷ []) } in
    (true, all_calls start_manager s1.single_srv_list s1)

abbrev pub is_empty_list : List Text → Bool
is_empty_list [] = true
is_empty_list (q ∷ qs) = false

-- `StartService`: false where it panics; `starts` tells which servers start.
unfoldable pub start_service : (Text → Bool) → Service → Bool × Service
start_service starts s =
    let s1 = record s {
      srv_list = s.srv_list ++ (codes "critical,share,default,low" ∷ codes "emails" ∷ []);
    } in
    if not (is_empty_list s.srv_list) || not (is_empty_list s.single_srv_list)
    then (true, s)
    else start_single (start_servers starts s1.srv_list s1)

unfoldable pub stop_service : Service → Service
stop_service s =
    let s1 = all_calls stop_manager s.single_srv_list (record s { shutting_down = true }) in
    all_calls stop_server s1.srv_list s1

-- `_isCanceledByShutdown`, of whether the error, and the error of the context where there is one, are
-- `context.Canceled`
unfoldable pub is_canceled_by_shutdown : Service → Bool → Option Bool → Bool
is_canceled_by_shutdown s err_canceled none = if not s.shutting_down then false else err_canceled
is_canceled_by_shutdown s err_canceled (some ctx_canceled) =
    if not s.shutting_down then false else if err_canceled then true else ctx_canceled

-- The operations that other code calls, in any order
pub data ServiceEvent : Type 0 where
  client_start client_stop service_register service_unregister service_stop : ServiceEvent
  service_start : (Text → Bool) → ServiceEvent

unfoldable pub service_step : ServiceEvent → Service → Service
unfolding start_client stop_client register_service unregister_service start_service stop_service
service_step client_start s = start_client s
service_step client_stop s = stop_client s
service_step service_register s = register_service s
service_step service_unregister s = unregister_service s
service_step service_stop s = stop_service s
service_step (service_start starts) s = (start_service starts s).1

unfoldable pub service_run : List ServiceEvent → Service → Service
unfolding service_step
service_run [] s = s
service_run (e ∷ es) s = service_run es (service_step e s)
