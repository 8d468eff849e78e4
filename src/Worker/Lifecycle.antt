-- ===== src/Worker/Lifecycle.antt =====
-- app/worker/service.go: what holds over every sequence of the calls that start and stop the client, the
-- scheduler and the servers.
use goth_scaffold.Prelude.{
  ℕ, ◌+◌, Text, codes, Bool, true, false, not, ◌||◌, if◌then◌else◌, List, [], ◌∷◌, ◌++◌, ◌≡◌, refl,
  arith, Bool-cases, inl, inr, if_rule, ◌∙◌, ap,
}
use goth_scaffold.Worker.Service.{
  ServiceCall, open_client, open_inspector, set_submitter, close_client, close_inspector,
  open_scheduler, register_tasks, start_server, stop_server, start_manager, stop_manager, Service,
  call, start_client, stop_client, stop_inspector, register_service, unregister_service,
  start_servers, start_single, all_calls, is_empty_list, start_service, stop_service, ServiceEvent,
  client_start, client_stop, service_register, service_unregister, service_stop, service_start,
  service_step, service_run,
}

abbrev pub count_calls : (ServiceCall → ℕ) → List ServiceCall → ℕ
count_calls w [] = 0
count_calls w (c ∷ cs) = w c + count_calls w cs

abbrev pub is_open : ServiceCall → ℕ
is_open open_client = 1
is_open open_inspector = 1
is_open c = 0

abbrev pub is_close : ServiceCall → ℕ
is_close close_client = 1
is_close close_inspector = 1
is_close c = 0

abbrev pub is_server_start : ServiceCall → ℕ
is_server_start (start_server q) = 1
is_server_start c = 0

count_calls-append :
    (w : ServiceCall → ℕ) (cs ds : List ServiceCall)
    → count_calls w (cs ++ ds) ≡ count_calls w cs + count_calls w ds
count_calls-append w [] ds = omega arith
count_calls-append w (c ∷ cs) ds = omega (arith, count_calls-append w cs ds)

abbrev pub flag : Bool → ℕ
flag b = if b then 1 else 0

-- Each client and inspector that is opened is closed, but for those that are there; both or none are.
pub record IsBalanced (s : Service) : Type 0 where
  pub together : s.client_set ≡ s.inspector_set
  pub balanced :
      count_calls is_open s.calls
      ≡ count_calls is_close s.calls + (flag s.client_set + flag s.inspector_set)

abbrev pub no_service : Service
no_service = record {
  client_set = false;
  inspector_set = false;
  scheduler_set = false;
  scheduler_manager_set = false;
  srv_list = [];
  single_srv_list = [];
  shutting_down = false;
  calls = [];
}

-- The client, the inspector and the servers are as before.
record SameFields (s t : Service) : Type 0 where
  same_client : t.client_set ≡ s.client_set
  same_inspector : t.inspector_set ≡ s.inspector_set
  same_servers : t.srv_list ≡ s.srv_list

all_calls-SameFields :
    (f : Text → ServiceCall) (qs : List Text) (s : Service) → SameFields s (all_calls f qs s)
all_calls-SameFields f [] s = record {
  same_client = refl;
  same_inspector = refl;
  same_servers = refl;
}
all_calls-SameFields f (q ∷ qs) s =
    let rest = all_calls-SameFields f qs (call (f q ∷ []) s) in
    record {
      same_client = rest.same_client;
      same_inspector = rest.same_inspector;
      same_servers = rest.same_servers;
    }

start_servers-SameFields :
    (starts : Text → Bool) (qs : List Text) (s : Service)
    → SameFields s (start_servers starts qs s).1
start_servers-SameFields starts [] s = record {
  same_client = refl;
  same_inspector = refl;
  same_servers = refl;
}
start_servers-SameFields starts (q ∷ qs) s =
    let rest = start_servers-SameFields starts qs (call (start_server q ∷ []) s) in
    if_rule (λ (x : Bool × Service). SameFields s x.1) (starts q)
      (λ e. record {
        same_client = rest.same_client;
        same_inspector = rest.same_inspector;
        same_servers = rest.same_servers;
      })
      (λ e. record { same_client = refl; same_inspector = refl; same_servers = refl })

start_single-SameFields : (x : Bool × Service) → SameFields x.1 (start_single x).1
start_single-SameFields (false, s) = record {
  same_client = refl;
  same_inspector = refl;
  same_servers = refl;
}
start_single-SameFields (true, s) =
    let s1 = record s { single_srv_list = s.single_srv_list ++ (codes "unique" ∷ []) } in
    let rest = all_calls-SameFields start_manager s1.single_srv_list s1 in
    record {
      same_client = rest.same_client;
      same_inspector = rest.same_inspector;
      same_servers = rest.same_servers;
    }

module _ (w : ServiceCall → ℕ) where
  count_calls-call :
      (c : ServiceCall) (s : Service)
      → w c ≡ 0
      → count_calls w (call (c ∷ []) s).calls ≡ count_calls w s.calls
  count_calls-call c s h = omega (arith, count_calls-append w s.calls (c ∷ []), h)

  count_calls-all_calls :
      (f : Text → ServiceCall) (qs : List Text) (s : Service)
      → ((q : Text) → w (f q) ≡ 0)
      → count_calls w (all_calls f qs s).calls ≡ count_calls w s.calls
  count_calls-all_calls f [] s h = refl
  count_calls-all_calls f (q ∷ qs) s h =
      count_calls-all_calls f qs (call (f q ∷ []) s) h ∙ count_calls-call (f q) s (h q)

  count_calls-start_servers :
      (starts : Text → Bool) (qs : List Text) (s : Service)
      → ((q : Text) → w (start_server q) ≡ 0)
      → count_calls w (start_servers starts qs s).1.calls ≡ count_calls w s.calls
  count_calls-start_servers starts [] s h = refl
  count_calls-start_servers starts (q ∷ qs) s h =
      let next = call (start_server q ∷ []) s in
      if_rule (λ (x : Bool × Service). count_calls w x.1.calls ≡ count_calls w s.calls) (starts q)
        (λ e.
          count_calls-start_servers starts qs next h ∙ count_calls-call (start_server q) s (h q))
        (λ e. count_calls-call (start_server q) s (h q))

  count_calls-start_single :
      (x : Bool × Service)
      → ((q : Text) → w (start_manager q) ≡ 0)
      → count_calls w (start_single x).1.calls ≡ count_calls w x.1.calls
  count_calls-start_single (false, s) h = refl
  count_calls-start_single (true, s) h =
      let s1 = record s { single_srv_list = s.single_srv_list ++ (codes "unique" ∷ []) } in
      count_calls-all_calls start_manager s1.single_srv_list s1 h

  count_calls-stop_service :
      (s : Service)
      → ((q : Text) → w (stop_manager q) ≡ 0)
      → ((q : Text) → w (stop_server q) ≡ 0)
      → count_calls w (stop_service s).calls ≡ count_calls w s.calls
  unfolding stop_service
  count_calls-stop_service s h k =
      let s0 = record s { shutting_down = true } in
      let s1 = all_calls stop_manager s.single_srv_list s0 in
      count_calls-all_calls stop_server s1.srv_list s1 k
      ∙ count_calls-all_calls stop_manager s.single_srv_list s0 h

stop_service-SameFields : (s : Service) → SameFields s (stop_service s)
unfolding stop_service
stop_service-SameFields s =
    let s0 = record s { shutting_down = true } in
    let s1 = all_calls stop_manager s.single_srv_list s0 in
    let a = all_calls-SameFields stop_manager s.single_srv_list s0 in
    let b = all_calls-SameFields stop_server s1.srv_list s1 in
    record {
      same_client = b.same_client ∙ a.same_client;
      same_inspector = b.same_inspector ∙ a.same_inspector;
      same_servers = b.same_servers ∙ a.same_servers;
    }

-- A change that opens and closes nothing
quiet-IsBalanced :
    (s t : Service)
    → IsBalanced s
    → t.client_set ≡ s.client_set
    → t.inspector_set ≡ s.inspector_set
    → count_calls is_open t.calls ≡ count_calls is_open s.calls
    → count_calls is_close t.calls ≡ count_calls is_close s.calls
    → IsBalanced t
quiet-IsBalanced s t h c i o k = record {
  together = rw (c, i) h.together;
  balanced = rw (c, i, o, k) h.balanced;
}

start_client-IsBalanced : (s : Service) → IsBalanced s → IsBalanced (start_client s)
unfolding start_client
start_client-IsBalanced s h =
    let opened =
      count_calls-append is_open s.calls (open_client ∷ open_inspector ∷ set_submitter ∷ []) in
    let closed =
      count_calls-append is_close s.calls (open_client ∷ open_inspector ∷ set_submitter ∷ []) in
    let balanced = h.balanced in
    if_rule IsBalanced (s.client_set || s.inspector_set) (λ e. h)
      (λ e. record { together = refl; balanced = ground (arith, opened, closed) })

stop_client-IsBalanced : (s : Service) → IsBalanced s → IsBalanced (stop_client s)
unfolding stop_client
stop_client-IsBalanced s h =
    let balanced = h.balanced in
    let together = h.together in
    elim (Bool-cases s.client_set) [
      | inl e ↦
          let f : s.inspector_set ≡ true = cc in
          let both : count_calls is_open s.calls ≡ count_calls is_close s.calls + 2 =
            ground arith in
          let calls' = s.calls ++ (close_client ∷ []) in
          rw (e, f)
            (record {
              together = refl;
              balanced = omega (
                arith,
                both,
                count_calls-append is_open s.calls (close_client ∷ []),
                count_calls-append is_open calls' (close_inspector ∷ []),
                count_calls-append is_close s.calls (close_client ∷ []),
                count_calls-append is_close calls' (close_inspector ∷ []),
              );
            })
      | inr e ↦
          let f : s.inspector_set ≡ false = cc in
          let none_left : count_calls is_open s.calls ≡ count_calls is_close s.calls =
            ground arith in
          rw (e, f) (record { together = refl; balanced = omega (arith, none_left) })
    ]

start_service-IsBalanced :
    (starts : Text → Bool) (s : Service) → IsBalanced s → IsBalanced (start_service starts s).1
unfolding start_service
start_service-IsBalanced starts s h =
    let s1 = record s {
      srv_list = s.srv_list ++ (codes "critical,share,default,low" ∷ codes "emails" ∷ []);
    } in
    let x = start_servers starts s1.srv_list s1 in
    let a = start_servers-SameFields starts s1.srv_list s1 in
    let b = start_single-SameFields x in
    if_rule (λ (y : Bool × Service). IsBalanced y.1)
      (not (is_empty_list s.srv_list) || not (is_empty_list s.single_srv_list)) (λ e. h)
      (λ e.
        quiet-IsBalanced s (start_single x).1 h (b.same_client ∙ a.same_client)
          (b.same_inspector ∙ a.same_inspector)
          (count_calls-start_single is_open x (λ q. refl)
            ∙ count_calls-start_servers is_open starts s1.srv_list s1 (λ q. refl))
          (count_calls-start_single is_close x (λ q. refl)
            ∙ count_calls-start_servers is_close starts s1.srv_list s1 (λ q. refl)))

register_service-IsBalanced : (s : Service) → IsBalanced s → IsBalanced (register_service s)
unfolding register_service
register_service-IsBalanced s h =
    let cs = open_scheduler ∷ register_tasks ∷ start_manager (codes "scheduler") ∷ [] in
    quiet-IsBalanced s (register_service s) h refl refl
      (omega (arith, count_calls-append is_open s.calls cs))
      (omega (arith, count_calls-append is_close s.calls cs))

unregister_service-IsBalanced : (s : Service) → IsBalanced s → IsBalanced (unregister_service s)
unfolding unregister_service
unregister_service-IsBalanced s h =
    let c = stop_manager (codes "scheduler") in
    elim (Bool-cases s.scheduler_manager_set) [
      | inl e ↦
          let t = record s {
            scheduler_set = false;
            scheduler_manager_set = false;
            calls = s.calls ++ (c ∷ []);
          } in
          rw e (
            quiet-IsBalanced s t h refl refl (count_calls-call is_open c s refl)
              (count_calls-call is_close c s refl))
      | inr e ↦ rw e (record { together = h.together; balanced = h.balanced })
    ]

stop_service-IsBalanced : (s : Service) → IsBalanced s → IsBalanced (stop_service s)
stop_service-IsBalanced s h =
    let a = stop_service-SameFields s in
    quiet-IsBalanced s (stop_service s) h a.same_client a.same_inspector
      (count_calls-stop_service is_open s (λ q. refl) (λ q. refl))
      (count_calls-stop_service is_close s (λ q. refl) (λ q. refl))

service_step-IsBalanced :
    (e : ServiceEvent) (s : Service) → IsBalanced s → IsBalanced (service_step e s)
unfolding service_step
service_step-IsBalanced client_start s h = start_client-IsBalanced s h
service_step-IsBalanced client_stop s h = stop_client-IsBalanced s h
service_step-IsBalanced service_register s h = register_service-IsBalanced s h
service_step-IsBalanced service_unregister s h = unregister_service-IsBalanced s h
service_step-IsBalanced service_stop s h = stop_service-IsBalanced s h
service_step-IsBalanced (service_start starts) s h = start_service-IsBalanced starts s h

-- Over every sequence of starts and stops from the beginning, a client is there exactly if an inspector is, and as many of both have been
-- opened as have been closed and are there.
pub service_run-IsBalanced :
    (es : List ServiceEvent) (s : Service) → IsBalanced s → IsBalanced (service_run es s)
unfolding service_run
service_run-IsBalanced [] s h = h
service_run-IsBalanced (e ∷ es) s h =
    service_run-IsBalanced es (service_step e s) (service_step-IsBalanced e s h)

-- The list of servers is filled, and no more of them have been started.
record Unstarted (s t : Service) : Type 0 where
  filled : is_empty_list t.srv_list ≡ false
  no_start : count_calls is_server_start t.calls ≡ count_calls is_server_start s.calls

start_service-Unstarted :
    (starts : Text → Bool) (s : Service)
    → is_empty_list s.srv_list ≡ false
    → Unstarted s (start_service starts s).1
unfolding start_service
start_service-Unstarted starts s h = rw h (record { filled = h; no_start = refl })

start_client-Unstarted :
    (s : Service) → is_empty_list s.srv_list ≡ false → Unstarted s (start_client s)
unfolding start_client
start_client-Unstarted s h =
    let cs = open_client ∷ open_inspector ∷ set_submitter ∷ [] in
    if_rule (Unstarted s) (s.client_set || s.inspector_set)
      (λ e. record { filled = h; no_start = refl })
      (λ e. record {
        filled = h;
        no_start = omega (arith, count_calls-append is_server_start s.calls cs);
      })

stop_inspector-Unstarted :
    (s : Service) → is_empty_list s.srv_list ≡ false → Unstarted s (stop_inspector s)
stop_inspector-Unstarted s h =
    if_rule (Unstarted s) s.inspector_set
      (λ e. record {
        filled = h;
        no_start = count_calls-call is_server_start close_inspector s refl;
      })
      (λ e. record { filled = h; no_start = refl })

stop_client-Unstarted :
    (s : Service) → is_empty_list s.srv_list ≡ false → Unstarted s (stop_client s)
unfolding stop_client
stop_client-Unstarted s h =
    let t = call (close_client ∷ []) (record s { client_set = false }) in
    let rest = stop_inspector-Unstarted t h in
    if_rule (λ x. Unstarted s (stop_inspector x)) s.client_set
      (λ e. record {
        filled = rest.filled;
        no_start = rest.no_start ∙ count_calls-call is_server_start close_client s refl;
      })
      (λ e. stop_inspector-Unstarted s h)

unregister_service-Unstarted :
    (s : Service) → is_empty_list s.srv_list ≡ false → Unstarted s (unregister_service s)
unfolding unregister_service
unregister_service-Unstarted s h =
    let c = stop_manager (codes "scheduler") in
    elim (Bool-cases s.scheduler_manager_set) [
      | inl e ↦ rw e (record { filled = h; no_start = count_calls-call is_server_start c s refl })
      | inr e ↦ rw e (record { filled = h; no_start = refl })
    ]

service_step-Unstarted :
    (e : ServiceEvent) (s : Service)
    → is_empty_list s.srv_list ≡ false
    → Unstarted s (service_step e s)
unfolding service_step register_service
service_step-Unstarted client_start s h = start_client-Unstarted s h
service_step-Unstarted client_stop s h = stop_client-Unstarted s h
service_step-Unstarted service_register s h =
    let cs = open_scheduler ∷ register_tasks ∷ start_manager (codes "scheduler") ∷ [] in
    record { filled = h; no_start = omega (arith, count_calls-append is_server_start s.calls cs) }
service_step-Unstarted service_unregister s h = unregister_service-Unstarted s h
service_step-Unstarted service_stop s h =
    let a = stop_service-SameFields s in
    record {
      filled = rw a.same_servers h;
      no_start = count_calls-stop_service is_server_start s (λ q. refl) (λ q. refl);
    }
service_step-Unstarted (service_start starts) s h = start_service-Unstarted starts s h

service_run-Unstarted :
    (es : List ServiceEvent) (s : Service)
    → is_empty_list s.srv_list ≡ false
    → Unstarted s (service_run es s)
unfolding service_run
service_run-Unstarted [] s h = record { filled = h; no_start = refl }
service_run-Unstarted (e ∷ es) s h =
    let first = service_step-Unstarted e s h in
    let rest = service_run-Unstarted es (service_step e s) first.filled in
    record { filled = rest.filled; no_start = rest.no_start ∙ first.no_start }

start_service-filled :
    (starts : Text → Bool) (s : Service)
    → s.srv_list ≡ []
    → s.single_srv_list ≡ []
    → is_empty_list (start_service starts s).1.srv_list ≡ false
unfolding start_service
start_service-filled starts s h k =
    let s1 = record s {
      srv_list = s.srv_list ++ (codes "critical,share,default,low" ∷ codes "emails" ∷ []);
    } in
    let x = start_servers starts s1.srv_list s1 in
    let a = start_servers-SameFields starts s1.srv_list s1 in
    let b = start_single-SameFields x in
    rw (ap is_empty_list h) (rw (ap is_empty_list k) (rw (b.same_servers ∙ a.same_servers, h) refl))

-- Once StartService has filled the empty lists of servers, no later sequence of starts and stops
-- starts a server again, also where StopService has stopped them all.
pub start_service-service_run :
    (starts : Text → Bool) (s : Service) (es : List ServiceEvent)
    → s.srv_list ≡ []
    → s.single_srv_list ≡ []
    → count_calls is_server_start (service_run es (start_service starts s).1).calls
      ≡ count_calls is_server_start (start_service starts s).1.calls
start_service-service_run starts s es h k =
    (service_run-Unstarted es (start_service starts s).1
      (start_service-filled starts s h k)).no_start
