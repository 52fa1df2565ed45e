-- ===== src/Mux/Server.antt =====
-- internal/mux/server/session.go: the server's end of one connection to an edge node. Time, the
-- goroutines that wait and the log are left out; frames go to a connection that takes them.
pub mod Responses
use accel_proxy.Common.{
  Bool, List, String, [], bool_eq, false, if◌then◌else◌, min, nat_beq, nat_eq, none, pair_eq, some,
  string_eq, true, ℕ, ◌++◌, ◌+◌, ◌==◌, ◌||◌, ◌∷◌,
}
use accel_proxy.Common.Dict.{Dict, delete, insert, lookup}
use accel_proxy.Wire.{Bytes}
use accel_proxy.Mux.Frame.{
  Frame, control_stream_id, type_data, type_go_away, type_headers, type_ping, type_pong, type_rst,
  type_window_update,
}
use accel_proxy.Mux.Stream.{
  Json, Received, RequestMeta, ResponseMeta, Stream, ended, new_stream, on_data, on_headers,
  on_window_update, recv_response_headers,
}

-- The JSON payloads of the session's own frames.
pub record Messages : Type 0 where
  pub json : Json
  -- the reason in a RST payload, empty where it cannot be decoded
  pub rst_reason : Bytes → String
  -- a GOAWAY payload about a stream
  pub go_away : ℕ → Bytes
  pub request_meta : RequestMeta → Bytes

pub record EdgeSession : Type 0 where
  pub node_id : String
  pub capabilities : List String
  pub streams : Dict ℕ Stream
  -- the pongs that wait in the channel of four places
  pub pongs : ℕ
  -- the frames written to the connection
  pub sent : List Frame
  pub is_over : Bool

-- `hasCapability`
unfoldable pub has_capability : List String → String → Bool
has_capability [] cap = false
has_capability (c ∷ cs) cap = let rest = has_capability cs cap in if c == cap then true else rest

unfoldable pub new_edge_session : String → List String → EdgeSession
new_edge_session node_id capabilities = record {
  node_id = node_id;
  capabilities = capabilities;
  streams = [];
  pongs = 0;
  sent = [];
  is_over = false;
}

-- `closeWithReason`: once; every stream is reset and forgotten.
pub close_with_reason : EdgeSession → EdgeSession
close_with_reason s = if s.is_over then s else record s { streams = []; is_over = true }

pub send : EdgeSession → Frame → EdgeSession
send s f = record s { sent = s.sent ++ (f ∷ []) }

pub control_frame : ℕ → Bytes → Frame
control_frame t payload = record { stream_id = 0; frame_type = t; flags = 0; payload = payload }

pub remove_stream : EdgeSession → ℕ → EdgeSession
remove_stream s id = record s { streams = delete id s.streams }

pub set_stream : EdgeSession → ℕ → Stream → EdgeSession
set_stream s id st = record s { streams = insert id st s.streams }

-- The start of `DoRequest`: a stream in the table, and its HEADERS frame sent.
pub start_request : Messages → EdgeSession → ℕ → RequestMeta → EdgeSession
unfolding set_stream send
start_request m s id meta =
    send (set_stream s id (new_stream id)) (record {
      stream_id = id;
      frame_type = type_headers;
      flags = 0;
      payload = m.request_meta meta;
    })

-- The wait of `DoRequest` on its stream.
pub await_response : EdgeSession → ℕ → Received ResponseMeta
unfolding recv_response_headers
await_response s id = elim (lookup id s.streams) [
  | none ↦ ended
  | some st ↦ (recv_response_headers st).1
]

pub handle_control_frame : EdgeSession → Frame → EdgeSession
unfolding send control_frame
handle_control_frame s f =
    if nat_beq f.frame_type type_pong
    then record s { pongs = min 4 (s.pongs + 1) }
    else if nat_beq f.frame_type type_ping
    then send s (control_frame type_pong [])
    else s

-- `handleStreamFrame` for a stream that is in the table. A frame that breaks flow control sends a
-- GOAWAY and ends the session.
pub handle_known : Messages → EdgeSession → Stream → Frame → EdgeSession
unfolding set_stream remove_stream send control_frame close_with_reason
handle_known m s st f =
    if nat_beq f.frame_type type_headers
    then set_stream s f.stream_id (on_headers m.json st f).0
    else if nat_beq f.frame_type type_data
    then (let (st', e) = on_data st f in
        let s' = set_stream s f.stream_id st' in
        elim e [
          | none ↦ s'
          | some x ↦
              close_with_reason (send s' (control_frame type_go_away (m.go_away f.stream_id)))
        ])
    else if nat_beq f.frame_type type_window_update
    then set_stream s f.stream_id (on_window_update st f.payload)
    else if nat_beq f.frame_type type_rst
    then remove_stream s f.stream_id
    else s

pub handle_stream_frame : Messages → EdgeSession → Frame → EdgeSession
handle_stream_frame m s f = elim (lookup f.stream_id s.streams) [
  | none ↦ s
  | some st ↦ handle_known m s st f
]

pub is_stream_type : ℕ → Bool
is_stream_type t =
    nat_beq t type_headers
    || nat_beq t type_data
    || nat_beq t type_rst
    || nat_beq t type_window_update

-- One round of `readLoop`.
pub handle_frame : Messages → EdgeSession → Frame → EdgeSession
unfolding is_stream_type
handle_frame m s f =
    if nat_beq f.stream_id control_stream_id
    then handle_control_frame s f
    else if is_stream_type f.frame_type
    then handle_stream_frame m s f
    else s

-- `readLoop`, on the frames that arrive. A session that has ended has closed its connection, and
-- reads no more.
pub read_frames : Messages → EdgeSession → List Frame → EdgeSession
read_frames m s [] = s
read_frames m s (f ∷ fs) =
    let next = read_frames m (handle_frame m s f) fs in if s.is_over then s else next

-- `readLoop` to its end.
pub read_loop : Messages → EdgeSession → List Frame → EdgeSession
unfolding close_with_reason
read_loop m s fs = close_with_reason (read_frames m s fs)
