-- ===== src/MuxHttp/Session.antt =====
-- internal/mux_http/server/session.go: `EdgeSession`, the server's side of the connection of one
-- edge: its send states, its partial HTTP responses, and what `readLoop` does with a frame.
pub mod Responses
use accel_proxy.Common.{
  Bool, Option, String, [], bool_eq, false, if◌then◌else◌, nat_beq, nat_eq, none, pair_eq, some,
  string_eq, text_append, true, ℕ, ◌++◌, ◌∷◌,
}
use accel_proxy.Common.Dict.{Dict, delete, insert, lookup}
use accel_proxy.MuxHttp.Frame.{Frame}
use accel_proxy.MuxHttp.Messages.{
  AckMsg, Codecs, HttpErrorMsg, HttpResponseHeadMsg, type_ack, type_http_error,
  type_http_response_body, type_http_response_end, type_http_response_head, type_ping, type_pong,
}
use accel_proxy.MuxHttp.Registry.{StreamEntry}
use accel_proxy.MuxHttp.Sender.{StreamSendState, evict, new_stream_send_state, update_ack}
use accel_proxy.Wire.{Bytes}

pub record ResponseAccumulator : Type 0 where
  pub head : HttpResponseHeadMsg
  pub body : Bytes

-- internal/mux_http/server/httpproxy.go: `httpResult`
pub record HttpResult : Type 0 where
  pub status_code : ℕ
  pub headers : Dict String String
  pub body : Bytes
  pub err : Option String

pub record EdgeSession : Type 0 where
  pub node_id : String
  pub cap_push : Bool
  pub cap_http_proxy : Bool
  pub streams : Dict ℕ StreamSendState
  pub http_resp_buf : Dict ℕ ResponseAccumulator
  pub closed : Bool

pub new_edge_session : String → EdgeSession
new_edge_session node_id = record {
  node_id = node_id;
  cap_push = false;
  cap_http_proxy = false;
  streams = [];
  http_resp_buf = [];
  closed = false;
}

pub evict_all : Dict ℕ StreamSendState → Dict ℕ StreamSendState
evict_all [] = []
evict_all ((id, st) ∷ more) = (id, evict st) ∷ evict_all more

-- `closeWithReason`: the context is cancelled, the connection closed and every stream evicted, once.
pub close_with_reason : EdgeSession → EdgeSession
close_with_reason s =
    if s.closed then s else record s { closed = true; streams = evict_all s.streams }

-- `addStream`: the send state of the entry, a new one if there is none.
pub add_stream : EdgeSession → StreamEntry → EdgeSession × StreamSendState
add_stream s entry = elim (lookup entry.id s.streams) [
  | some st ↦ (s, st)
  | none ↦
      (let st = new_stream_send_state entry in
        (record s { streams = insert entry.id st s.streams }, st))
]

pub set_send_state : EdgeSession → ℕ → StreamSendState → EdgeSession
set_send_state s id st = record s { streams = insert id st s.streams }

-- What a frame makes the session ask for: nothing, a frame in answer, the broker's `onAck` or
-- `onPong`, or the delivery of the response to an HTTP request.
pub data Asked : Type 0 where
  nothing pong_seen : Asked
  answers : Frame → Asked
  acks : ℕ → ℕ → Asked
  responds : ℕ → HttpResult → Asked

pub on_ack_msg : EdgeSession → AckMsg → EdgeSession × Asked
on_ack_msg s msg = elim (lookup msg.stream_id s.streams) [
  | none ↦ (s, acks msg.stream_id msg.offset)
  | some st ↦
      ((set_send_state s msg.stream_id (update_ack st msg.offset), acks msg.stream_id msg.offset))
]

-- The four frames of an HTTP response, decoded; each begins with the id of the request.
pub data Part : Type 0 where
  response_head : HttpResponseHeadMsg → Part
  response_body : Bytes → Part
  response_end : Part
  response_error : HttpErrorMsg → Part

pub complete_result : ResponseAccumulator → HttpResult
complete_result acc = record {
  status_code = acc.head.status_code;
  headers = acc.head.headers;
  body = acc.body;
  err = none;
}

pub error_result : HttpErrorMsg → HttpResult
error_result msg = record {
  status_code = msg.code;
  headers = [];
  body = [];
  err = some (text_append "edge error: " msg.message);
}

-- `handleHTTPResponseHead`, `handleHTTPResponseBody`, `handleHTTPResponseEnd` and `handleHTTPError`
-- on the table of partial responses, with the result that goes to the broker.
pub handle_part :
    Dict ℕ ResponseAccumulator → ℕ → Part → Dict ℕ ResponseAccumulator × Option HttpResult
handle_part buf id (response_head msg) = (insert id (record { head = msg; body = [] }) buf, none)
handle_part buf id (response_body chunk) = elim (lookup id buf) [
  | none ↦ (buf, none)
  | some acc ↦ (insert id (record acc { body = acc.body ++ chunk }) buf, none)
]
handle_part buf id response_end =
    (delete id buf, elim (lookup id buf) [ none ↦ none | some acc ↦ some (complete_result acc) ])
handle_part buf id (response_error msg) = (delete id buf, some (error_result msg))

pub on_part : EdgeSession → ℕ → Part → EdgeSession × Asked
on_part s id part =
    let (buf, result) = handle_part s.http_resp_buf id part in
    (record s { http_resp_buf = buf }, elim result [ none ↦ nothing | some r ↦ responds id r ])

-- A message that cannot be decoded is passed over.
pub decoded :
    {A : Type 0} → EdgeSession → Option A → (A → EdgeSession × Asked) → EdgeSession × Asked
decoded s none handle = (s, nothing)
decoded s (some msg) handle = handle msg

-- One round of `readLoop`.
pub on_frame : Codecs → EdgeSession → Frame → EdgeSession × Asked
on_frame c s f =
    let pong : Frame = record { stream_id = 0; frame_type = type_pong; payload = [] } in
    let ack = decoded s (c.ack.unmarshal f.payload) (on_ack_msg s) in
    let head =
      decoded s (c.http_response_head.unmarshal f.payload)
        (λ msg. on_part s f.stream_id (response_head msg)) in
    let failure =
      decoded s (c.http_error.unmarshal f.payload)
        (λ msg. on_part s f.stream_id (response_error msg)) in
    if nat_beq f.frame_type type_ack
    then ack
    else if nat_beq f.frame_type type_pong
    then (s, pong_seen)
    else if nat_beq f.frame_type type_ping
    then (s, answers pong)
    else if nat_beq f.frame_type type_http_response_head
    then head
    else if nat_beq f.frame_type type_http_response_body
    then on_part s f.stream_id (response_body f.payload)
    else if nat_beq f.frame_type type_http_response_end
    then on_part s f.stream_id response_end
    else if nat_beq f.frame_type type_http_error
    then failure
    else (s, nothing)
