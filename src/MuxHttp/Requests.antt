-- ===== src/MuxHttp/Requests.antt =====
-- internal/mux_http/server/httpproxy.go: the requests that wait for an answer of an edge. The channel
-- of a pending request holds one result; `respCh` here is what it holds.
pub mod Answers
use accel_proxy.Common.{
  Bool, List, Option, String, [], bool_eq, if◌then◌else◌, nat_beq, nat_eq, none, not, pair_eq, some,
  string_eq, take, text_append, ℕ, ◌%◌, ◌&&◌, ◌+◌, ◌==◌, ◌^◌, ◌∷◌,
}
use accel_proxy.Common.Dict.{Dict, delete, insert, lookup}
use accel_proxy.MuxHttp.Frame.{Frame, max_payload_size}
use accel_proxy.MuxHttp.Messages.{Codec, HttpErrorMsg, HttpRequestMsg, type_http_request}
use accel_proxy.MuxHttp.Session.{HttpResult, ResponseAccumulator, complete_result, error_result}
use accel_proxy.Wire.{Bytes}

pub record PendingRequest : Type 0 where
  pub id : ℕ
  pub node_id : String
  pub resp_ch : Option HttpResult

pub record HttpProxyBroker : Type 0 where
  pub pending : Dict ℕ PendingRequest
  pub next_request_id : ℕ

unfoldable pub new_http_proxy_broker : HttpProxyBroker
new_http_proxy_broker = record { pending = []; next_request_id = 0x80000000 }

-- The first `uint32` after the counter that is not 0; it is the counter's new value.
unfoldable pub alloc_request_id : ℕ → ℕ
alloc_request_id counter =
    let id = (counter + 1) % 2 ^ 32 in if nat_beq id 0 then (id + 1) % 2 ^ 32 else id

pub request_frame : Codec HttpRequestMsg → ℕ → HttpRequestMsg → Frame
request_frame codec id req = record {
  stream_id = id;
  frame_type = type_http_request;
  payload = codec.marshal req;
}

-- How `SendRequest` goes on: it fails, or waits for the answer to the request with the id.
pub data Sending : Type 0 where
  not_connected write_failed : Sending
  awaits : ℕ → Frame → Sending

-- `delete(b.pending, reqID)`, when `SendRequest` returns.
pub forget : HttpProxyBroker → ℕ → HttpProxyBroker
forget b id = record b { pending = delete id b.pending }

pub add_pending : HttpProxyBroker → ℕ → String → HttpProxyBroker
add_pending b id node_id = record {
  pending = insert id (record { id = id; node_id = node_id; resp_ch = none }) b.pending;
  next_request_id = id;
}

-- `SendRequest` up to its wait, for the session that the registry has for the node; `written` tells
-- whether `WriteFrame` succeeds.
pub start_request :
    Codec HttpRequestMsg
    → HttpProxyBroker
    → Option ℕ
    → String
    → HttpRequestMsg
    → Bool
    → HttpProxyBroker × Sending
start_request codec b none node_id req written = (b, not_connected)
start_request codec b (some session) node_id req written =
    let id = alloc_request_id b.next_request_id in
    let b' = add_pending b id node_id in
    if written then (b', awaits id (request_frame codec id req)) else (forget b' id, write_failed)

-- What becomes of a result: the request is unknown, the channel takes it, or the channel is full and
-- the caller, a read loop, waits.
pub data Offered : Type 0 where
  unknown taken blocks : Offered

pub offer : HttpProxyBroker → ℕ → HttpResult → HttpProxyBroker × Offered
offer b id result = elim (lookup id b.pending) [
  | none ↦ (b, unknown)
  | some p ↦ elim p.resp_ch [
    | some full ↦ (b, blocks)
    | none ↦
        (record b { pending = insert id (record p { resp_ch = some result }) b.pending }, taken)
  ]
]

pub on_http_response_complete :
    HttpProxyBroker → ℕ → ResponseAccumulator → HttpProxyBroker × Offered
on_http_response_complete b id acc = offer b id (complete_result acc)

pub on_http_error : HttpProxyBroker → ℕ → HttpErrorMsg → HttpProxyBroker × Offered
on_http_error b id msg = offer b id (error_result msg)

-- How the wait of `SendRequest` ends. When both the result and the timeout are there, `select` may
-- take either.
pub data Answer : Type 0 where
  still_waits timed_out : Answer
  answered : HttpResult → Answer

pub result_there : Option PendingRequest → Option HttpResult
result_there none = none
result_there (some p) = p.resp_ch

pub await_response : HttpProxyBroker → ℕ → Bool → Bool → HttpProxyBroker × Answer
await_response b id timeout takes_timeout = elim (result_there (lookup id b.pending)) [
  | none ↦ if timeout then (forget b id, timed_out) else (b, still_waits)
  | some r ↦
      if timeout && takes_timeout then (forget b id, timed_out) else (forget b id, answered r)
]

-- The headers of a request with one value each: Go's `vs[0]`, which panics where there is none.
pub flatten_headers : Dict String (List String) → Option (Dict String String)
flatten_headers [] = some []
flatten_headers ((k, []) ∷ more) = none
flatten_headers ((k, v ∷ vs) ∷ more) = elim (flatten_headers more) [
  | none ↦ none
  | some rest ↦ some ((k, v) ∷ rest)
]

-- The parts of a `*http.Request` that are read; `url_text` is its `URL.String()`.
pub record HttpRequest : Type 0 where
  pub method : String
  pub url_host : String
  pub url_path : String
  pub raw_query : String
  pub url_text : String
  pub headers : Dict String (List String)
  pub body : Bytes

pub build_http_request_msg : HttpRequest → Option HttpRequestMsg
build_http_request_msg r =
    let path : String =
      if not (r.raw_query == "")
      then text_append r.url_path (text_append "?" r.raw_query)
      else r.url_path in
    elim (flatten_headers r.headers) [
      | none ↦ none
      | some headers ↦ some (record {
        method = r.method;
        url = (if r.url_host == "" then path else r.url_text);
        headers = headers;
        body = take max_payload_size r.body;
      })
    ]
