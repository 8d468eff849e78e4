-- ===== src/Tests/Services.antt =====
-- The theorems on Cassandra's statements, on the handlers, on the log of requests and on the worker's service,
-- at fixed inputs.
use goth_scaffold.Prelude.{
  ℕ, ◌≤◌, ◌+◌, ◌≡◌, refl, Text, codes, text_eq, join, length, map, All, true, if◌then◌else◌, [],
  ◌∷◌, ◌++◌, Option, none, some, ok, pos, ◌↔◌,
}
use goth_scaffold.Cassandra.{join_by}
use goth_scaffold.Keyspace.{
  format_int, CqlEntity, int_value, string_value, bool_value, save_query, delete_query,
}
use goth_scaffold.Keyspace.Columns.{
  columns, key_columns, value_or_now, using, ttl_clause, timestamp_clause, condition_of,
}
use goth_scaffold.Keyspace.Statements.{save_query-delete_query}
use goth_scaffold.Handlers.Auth.{check_basic_auth, Authorized, passed, check_basic_auth_iff}
use goth_scaffold.Http.{Headers, Response, LogStruct, max_log_body_bytes, do_request}
use goth_scaffold.Http.Logging.{Hidden, do_request-bounds}
use goth_scaffold.Worker.Service.{service_stop, service_start, start_service, service_run}
use goth_scaffold.Worker.Lifecycle.{
  no_service, count_calls, is_server_start, start_service-service_run,
}

abbrev log_entry : CqlEntity ℕ ℕ
log_entry = record {
  table = codes "maintenance_log";
  entity_fields =
      record { cql_name = codes "type"; can_set = true; value = string_value (codes "a") }
      ∷ record { cql_name = []; can_set = true; value = bool_value true }
      ∷ record { cql_name = codes "updated_at"; can_set = true; value = int_value (pos 0) }
      ∷ [];
  ttl = some (pos 60);
  timestamp = none;
}

abbrev kinds : Text → Text
unfolding text_eq
kinds name =
    if text_eq name (codes "type")
    then codes "partition_key"
    else if text_eq name (codes "updated_at")
    then codes "clustering"
    else codes "regular"

save_query-delete_query_test : save_query (pos 7) log_entry ≡ (
  codes "INSERT INTO maintenance_log(type,updated_at) VALUES (?,?) USING TTL 60",
  string_value (codes "a") ∷ int_value (pos 7) ∷ [],
)
unfolding save_query text_eq format_int
save_query-delete_query_test = refl

delete_query_test : delete_query (some kinds) log_entry ≡ (
  codes "DELETE FROM maintenance_log WHERE  type=? AND updated_at=?",
  string_value (codes "a") ∷ int_value (pos 0) ∷ [],
)
unfolding delete_query text_eq kinds
delete_query_test = refl

save_query-delete_query_example :
    (save_query (pos 7) log_entry ≡ (
      codes "INSERT INTO "
          ++ (log_entry.table
              ++ (codes "("
                  ++ (join b',' (map (λ f. f.cql_name) (columns log_entry.entity_fields))
                      ++ (codes ") VALUES ("
                          ++ (join b',' (map (λ f. b'?' ∷ []) (columns log_entry.entity_fields))
                              ++ (codes ")"
                                  ++ using (
                                      ttl_clause log_entry.ttl
                                      ++ timestamp_clause log_entry.timestamp))))))),
      map (value_or_now (pos 7)) (columns log_entry.entity_fields),
    ))
    × (delete_query (some kinds) log_entry ≡ (
      codes "DELETE FROM "
          ++ (log_entry.table
              ++ (codes " WHERE "
                  ++ join_by (codes " AND") (
                      map
                        (λ f. condition_of f.cql_name)
                        (key_columns kinds log_entry.entity_fields)))),
      map (λ f. f.value) (key_columns kinds log_entry.entity_fields),
    ))
save_query-delete_query_example = save_query-delete_query (pos 7) kinds log_entry

-- A code that decodes one text
abbrev decode_one : Text → Option Text
unfolding text_eq
decode_one s =
    if text_eq s (codes "Z290aDpzY2FmZm9sZA==") then some (codes "goth:scaffold") else none

abbrev good_header : Text
good_header = codes "Basic Z290aDpzY2FmZm9sZA=="

check_basic_auth_iff_example :
    (check_basic_auth decode_one (codes "goth") good_header ≡ passed)
    ↔ Authorized decode_one (codes "goth") good_header
check_basic_auth_iff_example = check_basic_auth_iff decode_one (codes "goth") good_header

check_basic_auth_test : check_basic_auth decode_one (codes "goth") good_header ≡ passed
unfolding check_basic_auth text_eq decode_one
check_basic_auth_test = refl

abbrev digest_text : Text → Text
digest_text s = codes "digest"

abbrev sent_headers : Headers
sent_headers =
    (codes "Authorization", codes "secret" ∷ []) ∷ (codes "Accept", codes "a" ∷ codes "b" ∷ []) ∷ []

abbrev answer : Response
answer = record { status_code = 200; response_header = []; response_body = codes "fine" }

do_request-bounds_example :
    (l : LogStruct) × (do_request digest_text true sent_headers (codes "body") (some answer) ≡ ok l)
    × (length l.request_log_body + length l.response_log_body ≤ max_log_body_bytes)
    × All (Hidden digest_text) l.request_log_headers
do_request-bounds_example =
    do_request-bounds digest_text sent_headers (codes "body") (some answer) (tt, (tt, tt)) tt

start_service-service_run_example :
    count_calls is_server_start
      (service_run
        (service_stop ∷ service_start (λ q. true) ∷ [])
        (start_service (λ q. true) no_service).1).calls
    ≡ count_calls is_server_start (start_service (λ q. true) no_service).1.calls
start_service-service_run_example =
    start_service-service_run (λ q. true) no_service (service_stop ∷ service_start (λ q. true) ∷ [])
      refl refl
