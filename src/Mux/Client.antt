-- ===== src/Mux/Client.antt =====
-- internal/mux/client/session.go and http_request_stream.go: the edge's end of a connection to the mux
-- server, which takes both push streams and requests. `sent` are the frames written, and `up` tells
-- whether the connection takes a frame. The receive buffer is that of MuxHttp/Receive: the two files
-- internal/mux/client/buffer.go and internal/mux_http/client/buffer.go are the same code.
use accel_proxy.MuxHttp.Receive.{
  Ended, RecvBuffer, RecvError, close, closed_with, new_recv_buffer, reopen, returns, waits, write,
}
use accel_proxy.Common.{
  Bool, List, Option, String, [], bool_eq, if◌then◌else◌, leb, length, ltb, min, nat_beq, nat_eq,
  none, pair_eq, some, string_eq, text_append, ℕ, ◌*◌, ◌++◌, ◌+◌, ◌==◌, ◌∷◌,
}
use accel_proxy.Common.Dict.{Dict, insert, lookup}
use accel_proxy.Mux.Frame.{
  Frame, control_stream_id, type_go_away, type_ping, type_pong, type_push_ack,
}
use accel_proxy.Mux.Stream.{Json, Stream}
use accel_proxy.Wire.{Bytes}

abbrev pub recv_buf_cap : ℕ
recv_buf_cap = 64 * 1024 * 1024

abbrev pub ack_every_bytes : ℕ
ack_every_bytes = 1 * 1024 * 1024

pub record RegisterMsg : Type 0 where
  pub node_id : String
  pub push_subs : List String
  pub push_resume : Dict String ℕ
  pub capabilities : List String

-- The JSON payloads of the session's own frames; an empty reason stands for one that cannot be
-- decoded.
pub record Messages : Type 0 where
  pub json : Json
  pub push_ack : ℕ → ℕ → Bytes
  pub push_rst_reason : Bytes → String
  pub rst : String → Bytes
  pub go_away : ℕ → Bytes
  pub is_go_away : Bytes → Bool

pub record PushRecvState : Type 0 where
  pub name : String
  pub id : ℕ
  pub recv_offset : ℕ
  pub acked_offset : ℕ
  pub buf : RecvBuffer

pub record EdgeClientSession : Type 0 where
  pub node_id : String
  pub push_subs : List String
  pub has_handler : Bool
  pub push_streams : Dict String PushRecvState
  pub push_by_id : Dict ℕ String
  pub req_streams : Dict ℕ Stream
  pub pongs : ℕ
  pub sent : List Frame

pub new_push_streams : List String → Dict String PushRecvState
new_push_streams [] = []
new_push_streams (name ∷ more) =
    insert name
      (record {
        name = name;
        id = 0;
        recv_offset = 0;
        acked_offset = 0;
        buf = new_recv_buffer recv_buf_cap;
      })
      (new_push_streams more)

pub new_edge_client_session : String → List String → Bool → EdgeClientSession
new_edge_client_session node_id push_subs has_handler = record {
  node_id = node_id;
  push_subs = push_subs;
  has_handler = has_handler;
  push_streams = new_push_streams push_subs;
  push_by_id = [];
  req_streams = [];
  pongs = 0;
  sent = [];
}

pub resume_offset : EdgeClientSession → String → ℕ
resume_offset s name = elim (lookup name s.push_streams) [ none ↦ 0 | some st ↦ st.recv_offset ]

-- The loop at the start of `runOnce`.
pub reopen_all : Dict String PushRecvState → Dict String PushRecvState
reopen_all [] = []
reopen_all ((name, st) ∷ more) = (name, record st { buf = reopen st.buf }) ∷ reopen_all more

pub capabilities_of : EdgeClientSession → List String
capabilities_of s =
    let push : List String = if ltb 0 (length s.push_subs) then "push" ∷ [] else [] in
    if s.has_handler then "reverse-http" ∷ push else push

pub resume_offsets : Dict String PushRecvState → Dict String ℕ
resume_offsets [] = []
resume_offsets ((name, st) ∷ more) =
    let rest = resume_offsets more in
    if ltb 0 st.recv_offset then insert name st.recv_offset rest else rest

pub register_msg : EdgeClientSession → RegisterMsg
register_msg s = record {
  node_id = s.node_id;
  push_subs = s.push_subs;
  push_resume = resume_offsets s.push_streams;
  capabilities = capabilities_of s;
}

-- The loop over the ids of REGISTER_ACK.
pub assign_ids : EdgeClientSession → Dict String ℕ → EdgeClientSession
assign_ids s [] = s
assign_ids s ((name, id) ∷ more) = elim (lookup name s.push_streams) [
  | none ↦ assign_ids s more
  | some st ↦
      assign_ids
        (record s {
          push_streams = insert name (record st { id = id }) s.push_streams;
          push_by_id = insert id name s.push_by_id;
        })
        more
]

pub on_register_ack : EdgeClientSession → Dict String ℕ → EdgeClientSession
on_register_ack s ids = assign_ids (record s { push_by_id = [] }) ids

unfoldable pub send : Bool → EdgeClientSession → Frame → EdgeClientSession
send up s f = if up then record s { sent = s.sent ++ (f ∷ []) } else s

unfoldable pub set_push : EdgeClientSession → PushRecvState → EdgeClientSession
set_push s st = record s { push_streams = insert st.name st s.push_streams }

pub push_by : EdgeClientSession → ℕ → Option PushRecvState
push_by s id = elim (lookup id s.push_by_id) [
  | none ↦ none
  | some name ↦ lookup name s.push_streams
]

-- `sendPushAck`, while there is a connection; an error of the write is ignored.
unfoldable pub send_push_ack :
    Messages → Bool → EdgeClientSession → PushRecvState → EdgeClientSession
send_push_ack m up s st =
    set_push
      (send up s (record {
        stream_id = control_stream_id;
        frame_type = type_push_ack;
        flags = 0;
        payload = m.push_ack st.id st.recv_offset;
      }))
      (record st { acked_offset = st.recv_offset })

-- Why `dispatchLoop` returns an error.
pub data DispatchError : Type 0 where
  ping_error goaway_error no_handler bad_headers flow_control_violation : DispatchError

-- What a frame makes of the loop: it goes on, waits in the write of a payload with what is left of
-- it, or returns.
pub data Dispatched : Type 0 where
  goes_on : Dispatched
  writing : Bytes → ℕ → Dispatched
  fails : DispatchError → Dispatched

-- What follows the write of a payload of `len` bytes in `handlePushData`.
unfoldable pub count_push :
    Messages
    → Bool
    → EdgeClientSession
    → PushRecvState
    → ℕ
    → RecvBuffer × Ended Bytes
    → EdgeClientSession × Dispatched
count_push m up s st len (b, waits rest) = (set_push s (record st { buf = b }), writing rest len)
count_push m up s st len (b, returns rest (some e)) = (set_push s (record st { buf = b }), goes_on)
count_push m up s st len (b, returns rest none) =
    let st' : PushRecvState = record st { buf = b; recv_offset = st.recv_offset + len } in
    if leb (st'.acked_offset + ack_every_bytes) st'.recv_offset
    then (send_push_ack m up s st', goes_on)
    else (set_push s st', goes_on)

unfoldable pub handle_push_data :
    Messages → Bool → EdgeClientSession → Frame → EdgeClientSession × Dispatched
handle_push_data m up s f = elim (push_by s f.stream_id) [
  | none ↦ (s, goes_on)
  | some st ↦ count_push m up s st (length f.payload) (write st.buf f.payload)
]

unfoldable pub handle_push_rst : Messages → EdgeClientSession → Frame → EdgeClientSession
handle_push_rst m s f =
    let reason = m.push_rst_reason f.payload in
    let why : Option RecvError =
      if reason == "EOF" then none else some (closed_with (text_append "push RST: " reason)) in
    elim (push_by s f.stream_id) [
      | none ↦ s
      | some st ↦ set_push s (record st { buf = close st.buf why })
    ]

-- `ackLoop` on the states that the map by id has.
pub flush_push_acks : Messages → Bool → EdgeClientSession → List ℕ → EdgeClientSession
flush_push_acks m up s [] = s
flush_push_acks m up s (id ∷ more) = elim (push_by s id) [
  | none ↦ flush_push_acks m up s more
  | some st ↦
      flush_push_acks m up
        (if ltb st.acked_offset st.recv_offset then send_push_ack m up s st else s) more
]

unfoldable pub handle_control :
    Messages → Bool → EdgeClientSession → Frame → EdgeClientSession × Dispatched
handle_control m up s f =
    let pong : Frame = record { stream_id = 0; frame_type = type_pong; flags = 0; payload = [] } in
    if nat_beq f.frame_type type_ping
    then (send up s pong, if up then goes_on else fails ping_error)
    else if nat_beq f.frame_type type_pong
    then (record s { pongs = min 4 (s.pongs + 1) }, goes_on)
    else if nat_beq f.frame_type type_go_away
    then (s, if m.is_go_away f.payload then goes_on else fails goaway_error)
    else (s, goes_on)
