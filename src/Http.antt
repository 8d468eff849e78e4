-- ===== src/Http.antt =====
-- app/components/httpclient/httpclient.go: `_do`, which sends a request and keeps a record of it and of its
-- response for the log. A body and a header are texts of bytes.
pub mod Logging
use goth_scaffold.Prelude.{
  ℕ, ◌+◌, Text, codes, text_eq, ltb, leb, length, take, Bool, true, false, if◌then◌else◌, List, [],
  ◌∷◌, ◌++◌, Option, none, some, Result, ok, err, ◌>>=◌,
}

-- What a slice or an index outside the range does
pub data Panic : Type 0 where
  out_of_range : Panic

abbrev pub Headers : Type 0
Headers = List (Text × List Text)

-- The response, once its body is read
pub record Response : Type 0 where
  pub status_code : ℕ
  pub response_header : Headers
  pub response_body : Text

-- The parts of `LogStruct` that are computed
pub record LogStruct : Type 0 where
  pub request_log_length : ℕ
  pub request_log_body : Text
  pub request_log_headers : List (Text × Text)
  pub status_logged : ℕ
  pub response_log_length : ℕ
  pub response_log_body : Text
  pub response_log_headers : List (Text × Text)

abbrev pub max_log_body_bytes : ℕ
max_log_body_bytes = 204800

abbrev pub max_log_request_body_bytes : ℕ
max_log_request_body_bytes = 200000

abbrev pub max_log_body_trim_bytes : ℕ
max_log_body_trim_bytes = 102400

-- `s[:n]`
abbrev pub slice_to : ℕ → Text → Result Panic Text
slice_to n s = if leb n (length s) then ok (take n s) else err out_of_range

abbrev pub body_up_to : ℕ → Text → Result Panic Text
body_up_to n body = if ltb (length body) max_log_body_bytes then ok body else slice_to n body

-- The loop over the values of one header, behind the first
abbrev pub add_values : Text → List Text → Text
add_values val_str [] = val_str
add_values val_str (v ∷ vs) = add_values (val_str ++ (b';' ∷ v)) vs

abbrev pub header_value : List Text → Result Panic Text
header_value [] = err out_of_range
header_value (v ∷ vs) = ok (add_values v vs)

-- The loop over the headers, in the order of the iteration; `shown` is what the log has for a value.
unfoldable pub log_headers : (Text → Text → Text) → Headers → Result Panic (List (Text × Text))
log_headers shown [] = ok []
log_headers shown ((name, value) ∷ rest) =
    header_value value
    >>= (λ val_str. log_headers shown rest >>= (λ logged. ok ((name, shown name val_str) ∷ logged)))

-- `base64.RawURLEncoding` of the SHA-256 sum in place of the credentials
abbrev pub hide_authorization : (Text → Text) → Text → Text → Text
unfolding text_eq
hide_authorization digest name val_str =
    if text_eq name (codes "Authorization") then digest val_str else val_str

abbrev pub trim_body : ℕ → Text → Result Panic Text
trim_body logged_length body =
    if ltb max_log_body_trim_bytes logged_length
    then slice_to max_log_body_trim_bytes body
    else ok body

-- The last test of the sizes
unfoldable pub trim_bodies : LogStruct → Result Panic LogStruct
trim_bodies l =
    if ltb max_log_body_bytes (l.request_log_length + l.response_log_length)
    then trim_body l.request_log_length l.request_log_body >>= (λ request_body.
      trim_body l.response_log_length l.response_log_body >>= (λ response_body.
        ok (record l { request_log_body = request_body; response_log_body = response_body })))
    else ok l

unfoldable pub log_response : Bool → Option Response → LogStruct → Result Panic LogStruct
unfolding log_headers
log_response false response l = ok l
log_response true none l = ok l
log_response true (some r) l =
    log_headers (λ name val_str. val_str) r.response_header >>= (λ headers.
      body_up_to max_log_body_bytes r.response_body >>= (λ body. ok (record l {
        status_logged = r.status_code;
        response_log_headers = headers;
        response_log_length = length r.response_body;
        response_log_body = body;
      })))

-- `_do`, with the body of the request and what came back; the request is sent with its body as it is.
unfoldable pub do_request :
    (Text → Text) → Bool → Headers → Text → Option Response → Result Panic LogStruct
unfolding log_headers hide_authorization log_response trim_bodies
do_request digest log headers body response =
    body_up_to max_log_request_body_bytes body >>= (λ request_body.
      log_headers (hide_authorization digest) headers >>= (λ logged.
        log_response log response (record {
          request_log_length = if log then length body else 0;
          request_log_body = request_body;
          request_log_headers = if log then logged else [];
          status_logged = 0;
          response_log_length = 0;
          response_log_body = [];
          response_log_headers = [];
        })
        >>= trim_bodies))
