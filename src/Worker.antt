-- ===== src/Worker.antt =====
-- lattica_query_src/lattica_query/transport/worker.py and http.py: one action on a remote worker, with
-- the polling of an action that takes long. The server, `requests` and the clock are the arguments: what
-- a request comes to, and the times that the clock shows. Times are whole ticks.
pub mod Polling
use lattica_studio.Prelude.{
  ℕ, zero, suc, ◌+◌, ◌-◌, ◌≡◌, String, str_eq, List, [], ◌∷◌, ◌++◌, Option, none, some, Bool, true,
  false, not, ◌&&◌, ◌||◌, length, leb, ltb, ◌==◌, if◌then◌else◌,
}
use lattica_studio.Result.{
  Result, ok, err, Error, value_error, transport_timeout_error, transport_error,
  polling_timeout_error, protocol_error, worker_execution_error, authentication_error,
  http_response_error, client_version_error, raise_if, or_raise, ◌>>=◌, ◌>>◌,
}

-- What is read of a JSON object: `str(status).upper()`, the execution id where it is neither missing nor
-- empty, and the error code.
pub record Payload : Type 0 where
  pub status : String
  pub execution_id : Option String
  pub error_code : Option String

-- `response.json()`: it raises, it is not an object, or it is one.
pub data Json : Type 0 where
  invalid : Json
  not_object : Json
  object : Payload → Json

-- A response; `media_type` is its Content-Type up to a `;`, stripped and in lower case.
pub record Response : Type 0 where
  pub status_code : ℕ
  pub media_type : String
  pub server_timing : String
  pub content : List ℕ
  pub json : Json

-- `session.request`: a response, a `requests.Timeout`, or another `RequestException`.
pub data Outcome : Type 0 where
  response : Response → Outcome
  timed_out : Outcome
  failed : Outcome

-- HTTPTransport.request
unfoldable pub request : Outcome → Result Response
request (response r) = ok r
request timed_out = err transport_timeout_error
request failed = err transport_error

-- HTTPTransport.decode_json
unfoldable pub decode_json : Json → Result Payload
decode_json invalid = err protocol_error
decode_json not_object = err protocol_error
decode_json (object payload) = ok payload

abbrev pub is_incompatible : Json → Bool
is_incompatible invalid = false
is_incompatible not_object = false
is_incompatible (object payload) = elim payload.error_code [
  | none ↦ false
  | some c ↦ str_eq c "CLIENT_VERSION_INCOMPATIBLE"
]

-- HTTPTransport.raise_response_error: the class of the exception.
unfoldable pub response_error : Response → Error
response_error r =
    if is_incompatible r.json
    then client_version_error
    else if r.status_code == 401 || r.status_code == 403
    then authentication_error
    else http_response_error

-- A WorkerResponse, or a _PendingResult.
pub data Sent : Type 0 where
  result : Option (List ℕ) → Sent
  pending : String → Sent

-- The `application/json` branch of `_send_request_once`.
unfoldable pub read_status : Payload → Result Sent
read_status payload =
    if str_eq payload.status "RUNNING"
    then (do id ← or_raise payload.execution_id protocol_error; ok (pending id))
    else if str_eq payload.status "ERROR"
    then err worker_execution_error
    else if str_eq payload.status "COMPLETED" || str_eq payload.status "SUCCESS"
    then ok (result none)
    else err protocol_error

-- `_send_request_once` from the response on; `response.ok` says that the status code is below 400.
unfoldable pub read_response : Response → Result Sent
unfolding read_status decode_json response_error
read_response r =
    if not (ltb r.status_code 400)
    then err (response_error r)
    else if str_eq r.media_type "application/octet-stream"
    then (if length r.content == 0 then err protocol_error else ok (result (some r.content)))
    else if str_eq r.media_type "application/json"
    then (do payload ← decode_json r.json; read_status payload)
    else err protocol_error

-- `_request_timings` and `_server_timing_header`
pub record Timings : Type 0 where
  pub request_timings : List (String × ℕ)
  pub server_timing_header : String

-- `_record_server_timing`, which a final result and an empty binary response reach.
abbrev pub records_timing : Response → Result Sent → Bool
records_timing r (ok (result x)) = true
records_timing r (ok (pending id)) = false
records_timing r (err e) = ltb r.status_code 400 && str_eq r.media_type "application/octet-stream"

abbrev pub after_response : Timings → String → ℕ → Response → Timings
after_response t action duration r = record {
  request_timings = t.request_timings ++ (action, duration) ∷ [];
  server_timing_header =
      if records_timing r (read_response r) then r.server_timing else t.server_timing_header;
}

-- `_send_request_once`: the timings it leaves, and what it returns or raises.
unfoldable pub send_request_once : Timings → String → ℕ → Outcome → Timings × Result Sent
unfolding request read_response
send_request_once t action duration (response r) =
    (after_response t action duration r, read_response r)
send_request_once t action duration timed_out = (t, request timed_out >>= read_response)
send_request_once t action duration failed = (t, request failed >>= read_response)

-- One pass of the polling loop: the clock before the sleep, after it and after the request, how long the
-- request took, and what it came to.
pub record Attempt : Type 0 where
  pub before_sleep : ℕ
  pub after_sleep : ℕ
  pub after_request : ℕ
  pub duration : ℕ
  pub outcome : Outcome

-- How an action ends, or that it still polls, for an execution id, when the attempts are used up.
pub data Polled : Type 0 where
  returned : Option (List ℕ) → Polled
  raised : Error → Polled
  polling : String → Polled

abbrev pub is_timeout : Error → Bool
is_timeout transport_timeout_error = true
is_timeout e = false

-- `time.sleep(min(self.polling_interval, remaining))`
abbrev pub sleep_for : ℕ → ℕ → ℕ → ℕ
sleep_for polling_interval deadline now =
    if leb polling_interval (deadline - now) then polling_interval else deadline - now

-- A pass of the loop from the request on; `again id` are the passes that follow.
abbrev pub after_sent :
    ℕ → Attempt → String → Timings → Result Sent → (String → Timings × Polled) → Timings × Polled
after_sent deadline a id t (ok (result x)) again = (t, returned x)
after_sent deadline a id t (ok (pending next)) again = again next
after_sent deadline a id t (err e) again =
    if is_timeout e
    then (if leb deadline a.after_request then (t, raised polling_timeout_error) else again id)
    else (t, raised e)

-- `_poll_for_result`
unfoldable pub poll_for_result : ℕ → String → Timings → List Attempt → Timings × Polled
poll_for_result deadline id t [] = (t, polling id)
poll_for_result deadline id t (a ∷ attempts) =
    let (t', sent) = send_request_once t "get_action_result" a.duration a.outcome in
    let again : String → Timings × Polled = λ next. poll_for_result deadline next t' attempts in
    if leb deadline a.before_sleep || leb deadline a.after_sleep
    then (t, raised polling_timeout_error)
    else after_sent deadline a id t' sent again

abbrev pub no_timings : Timings
no_timings = record { request_timings = []; server_timing_header = "" }

-- WorkerTransport.invoke: `now` is the clock when polling starts.
unfoldable pub invoke : ℕ → String → ℕ → Outcome → ℕ → List Attempt → Timings × Polled
invoke polling_timeout action duration outcome now attempts =
    let (t, sent) = send_request_once no_timings action duration outcome in
    elim sent [
      | err e ↦ (t, raised e)
      | ok r ↦ elim r [
        | result x ↦ (t, returned x)
        | pending id ↦ poll_for_result (now + polling_timeout) id t attempts
      ]
    ]
