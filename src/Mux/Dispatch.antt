-- ===== src/Mux/Dispatch.antt =====
-- internal/mux/client/session.go and http_request_stream.go: the requests that come to an edge, and
-- `dispatchLoop` over all its frames. `SendRST` and `SendGoAway` frames are written like the others.
pub mod Isolation
use accel_proxy.Mux.Client.{
  Dispatched, EdgeClientSession, Messages, bad_headers, fails, flow_control_violation, goes_on,
  handle_control, handle_push_data, handle_push_rst, no_handler, send,
}
use accel_proxy.Common.{
  Bool, List, String, [], bool_eq, false, if◌then◌else◌, is_some, nat_beq, nat_eq, none, not,
  pair_eq, some, string_eq, text_append, true, ℕ, ◌&&◌, ◌||◌, ◌∷◌,
}
use accel_proxy.Common.Dict.{delete, insert, lookup}
use accel_proxy.Mux.Frame.{
  Frame, control_stream_id, flag_end_stream, type_data, type_go_away, type_headers, type_push_data,
  type_push_rst, type_rst, type_window_update,
}
use accel_proxy.Mux.Stream.{
  ResponseMeta, Stream, close, new_stream, on_data, on_headers, on_window_update,
}
use accel_proxy.Wire.{Bytes}

pub set_req_stream : EdgeClientSession → ℕ → Stream → EdgeClientSession
set_req_stream s id st = record s { req_streams = insert id st s.req_streams }

pub remove_req_stream : EdgeClientSession → ℕ → EdgeClientSession
remove_req_stream s id = record s { req_streams = delete id s.req_streams }

pub has_req_stream : EdgeClientSession → ℕ → Bool
has_req_stream s id = is_some (lookup id s.req_streams)

pub rst_frame : Messages → ℕ → String → Frame
rst_frame m id reason = record {
  stream_id = id;
  frame_type = type_rst;
  flags = 0;
  payload = m.rst reason;
}

-- `handleNewRequest`; where it goes on, `serveRequest` is started for the stream.
pub handle_new_request :
    Messages → Bool → EdgeClientSession → Frame → EdgeClientSession × Dispatched
handle_new_request m up s f =
    let (st, e) = on_headers m.json (new_stream f.stream_id) f in
    if not s.has_handler
    then (send up s (rst_frame m f.stream_id "no handler"), fails no_handler)
    else elim e [
      | none ↦ (set_req_stream s f.stream_id st, goes_on)
      | some x ↦ (
        remove_req_stream (send up s (rst_frame m f.stream_id "bad headers")) f.stream_id,
        fails bad_headers,
      )
    ]

-- `dispatchReqStream` for a stream that is in the table.
pub dispatch_known :
    Messages → Bool → EdgeClientSession → Stream → Frame → EdgeClientSession × Dispatched
dispatch_known m up s st f =
    let (headed, e) = on_headers m.json st f in
    let (fed, v) = on_data st f in
    let go_away : Frame = record {
      stream_id = 0;
      frame_type = type_go_away;
      flags = 0;
      payload = m.go_away f.stream_id;
    } in
    if nat_beq f.frame_type type_headers
    then elim e [
      | none ↦ (set_req_stream s f.stream_id headed, goes_on)
      | some x ↦ (
        set_req_stream (send up s (rst_frame m f.stream_id "bad headers")) f.stream_id
            (close headed),
        goes_on,
      )
    ]
    else if nat_beq f.frame_type type_data
    then elim v [
      | none ↦ (set_req_stream s f.stream_id fed, goes_on)
      | some x ↦ (
        send up (set_req_stream s f.stream_id fed) go_away,
        if up then goes_on else fails flow_control_violation,
      )
    ]
    else if nat_beq f.frame_type type_window_update
    then (set_req_stream s f.stream_id (on_window_update st f.payload), goes_on)
    else (remove_req_stream s f.stream_id, goes_on)

pub dispatch_req_stream :
    Messages → Bool → EdgeClientSession → Frame → EdgeClientSession × Dispatched
dispatch_req_stream m up s f = elim (lookup f.stream_id s.req_streams) [
  | none ↦ (s, goes_on)
  | some st ↦ dispatch_known m up s st f
]

pub is_stream_type : ℕ → Bool
is_stream_type t =
    nat_beq t type_headers
    || nat_beq t type_data
    || nat_beq t type_rst
    || nat_beq t type_window_update

-- One round of `dispatchLoop`.
pub dispatch : Messages → Bool → EdgeClientSession → Frame → EdgeClientSession × Dispatched
dispatch m up s f =
    if nat_beq f.stream_id control_stream_id
    then handle_control m up s f
    else if nat_beq f.frame_type type_push_data
    then handle_push_data m up s f
    else if nat_beq f.frame_type type_push_rst
    then (handle_push_rst m s f, goes_on)
    else if nat_beq f.frame_type type_headers && not (has_req_stream s f.stream_id)
    then handle_new_request m up s f
    else if is_stream_type f.frame_type
    then dispatch_req_stream m up s f
    else (s, goes_on)

-- How the handler of a request answers: an error, or the response and whether there is a body.
pub data Handled : Type 0 where
  handler_error : String → Handled
  responds : ResponseMeta → Bool → Handled

-- The frames with which `serveRequest` begins its answer, and whether it goes on to send a body.
-- `response` encodes the head of the answer.
pub answer_request : Messages → (ResponseMeta → Bytes) → ℕ → Handled → List Frame × Bool
answer_request m response id (handler_error why) =
    (rst_frame m id (text_append "handler error: " why) ∷ [], false)
answer_request m response id (responds meta has_body) =
    let head : Frame = record {
      stream_id = id;
      frame_type = type_headers;
      flags = 0;
      payload = response meta;
    } in
    let last : Frame = record {
      stream_id = id;
      frame_type = type_data;
      flags = flag_end_stream;
      payload = [];
    } in
    if has_body then (head ∷ [], true) else (head ∷ last ∷ [], false)

-- The end of `serveRequest`.
pub end_request : EdgeClientSession → ℕ → EdgeClientSession
end_request s id = remove_req_stream s id
