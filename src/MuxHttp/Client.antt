-- ===== src/MuxHttp/Client.antt =====
-- internal/mux_http/client/session.go: `streamRecvState`, the receiving side of one push stream, and
-- the session of an edge over all its streams. A state that two maps share stands in the map by
-- name; the map by id holds names.
use accel_proxy.Common.{
  Bool, List, Option, String, [], bool_eq, false, if◌then◌else◌, leb, length, ltb, nat_beq, nat_eq,
  none, pair_eq, some, string_eq, text_append, ℕ, ◌*◌, ◌++◌, ◌+◌, ◌==◌, ◌∷◌,
}
use accel_proxy.Common.Dict.{Dict, insert, lookup}
pub mod Storing
use accel_proxy.MuxHttp.Receive.{
  Ended, RecvBuffer, close, closed_with, new_recv_buffer, reopen, returns, waits, write,
}
use accel_proxy.Wire.{Bytes}
use accel_proxy.MuxHttp.Frame.{Frame}
use accel_proxy.MuxHttp.Messages.{
  AckMsg, Codec, RstMsg, control_stream_id, type_ack, type_data, type_ping, type_pong, type_rst,
}

abbrev pub recv_buf_cap : ℕ
recv_buf_cap = 64 * 1024 * 1024

abbrev pub ack_every_bytes : ℕ
ack_every_bytes = 1 * 1024 * 1024

pub record StreamRecvState : Type 0 where
  pub name : String
  pub id : ℕ
  pub recv_offset : ℕ
  pub acked_offset : ℕ
  pub buf : RecvBuffer

unfoldable pub new_stream_recv_state : String → StreamRecvState
new_stream_recv_state name = record {
  name = name;
  id = 0;
  recv_offset = 0;
  acked_offset = 0;
  buf = new_recv_buffer recv_buf_cap;
}

unfoldable pub ack_frame : Codec AckMsg → StreamRecvState → Frame
ack_frame ack st = record {
  stream_id = control_stream_id;
  frame_type = type_ack;
  payload = ack.marshal (record { stream_id = st.id; offset = st.recv_offset });
}

-- `sendAckWithConn`; an error of the write is ignored there.
unfoldable pub send_ack_with_conn : Codec AckMsg → StreamRecvState → StreamRecvState × List Frame
send_ack_with_conn ack st = (record st { acked_offset = st.recv_offset }, ack_frame ack st ∷ [])

-- `sendAck`, with whether there is a connection.
pub send_ack : Codec AckMsg → Bool → StreamRecvState → StreamRecvState × List Frame
send_ack ack connected st = if connected then send_ack_with_conn ack st else (st, [])

-- How far `handleData` has come with a payload of `len` bytes: its write waits with the rest, has
-- failed, or is done.
pub data Handling : Type 0 where
  writing : Bytes → ℕ → Handling
  dropped done : Handling

-- What follows the write.
pub count_data :
    Codec AckMsg
    → Bool
    → StreamRecvState
    → ℕ
    → RecvBuffer × Ended Bytes
    → StreamRecvState × Handling × List Frame
count_data ack connected st len (b, waits rest) = (record st { buf = b }, writing rest len, [])
count_data ack connected st len (b, returns rest (some e)) = (record st { buf = b }, dropped, [])
count_data ack connected st len (b, returns rest none) =
    let st' : StreamRecvState = record st { buf = b; recv_offset = st.recv_offset + len } in
    let (acked, frames) = send_ack ack connected st' in
    if leb (st'.acked_offset + ack_every_bytes) st'.recv_offset
    then (acked, done, frames)
    else (st', done, [])

-- `handleData` for the stream of the frame, from the bytes that its write has not stored yet: all of
-- them at first, and each time that the write, which waits for room, goes on.
pub receive_data :
    Codec AckMsg → Bool → StreamRecvState → Bytes → ℕ → StreamRecvState × Handling × List Frame
receive_data ack connected st rest len = count_data ack connected st len (write st.buf rest)

-- `handleRST` for the stream of the message.
unfoldable pub receive_rst : StreamRecvState → RstMsg → StreamRecvState
receive_rst st msg = record st {
  buf = close st.buf (
      if msg.reason == "EOF"
      then none
      else some (closed_with (text_append "server RST: " msg.reason)));
}

-- The part of `ackLoop` for one stream.
unfoldable pub flush_ack : Codec AckMsg → StreamRecvState → StreamRecvState × List Frame
flush_ack ack st =
    if ltb st.acked_offset st.recv_offset then send_ack_with_conn ack st else (st, [])

pub record EdgeClientSession : Type 0 where
  pub node_id : String
  pub subs : List String
  pub streams : Dict String StreamRecvState
  pub streams_by_id : Dict ℕ String
  pub connected : Bool
  pub closed : Bool

-- The map that NewEdgeClientSession fills.
pub new_streams : List String → Dict String StreamRecvState
new_streams [] = []
new_streams (name ∷ more) = insert name (new_stream_recv_state name) (new_streams more)

pub new_edge_client_session : String → List String → EdgeClientSession
new_edge_client_session node_id subs = record {
  node_id = node_id;
  subs = subs;
  streams = new_streams subs;
  streams_by_id = [];
  connected = false;
  closed = false;
}

pub resume_offset : EdgeClientSession → String → ℕ
resume_offset s name = elim (lookup name s.streams) [ none ↦ 0 | some st ↦ st.recv_offset ]

-- The loop at the start of `runOnce`.
pub reopen_all : Dict String StreamRecvState → Dict String StreamRecvState
reopen_all [] = []
reopen_all ((name, st) ∷ more) = (name, record st { buf = reopen st.buf }) ∷ reopen_all more

-- The `Resume` of the REGISTER message.
pub resume_offsets : Dict String StreamRecvState → Dict String ℕ
resume_offsets [] = []
resume_offsets ((name, st) ∷ more) =
    let rest = resume_offsets more in
    if ltb 0 st.recv_offset then insert name st.recv_offset rest else rest

-- The loop over the ids of REGISTER_ACK: the states with their ids, and the map by id.
pub assign_ids :
    Dict String StreamRecvState
    → Dict ℕ String
    → Dict String ℕ
    → Dict String StreamRecvState × Dict ℕ String
assign_ids streams by_id [] = (streams, by_id)
assign_ids streams by_id ((name, id) ∷ more) = elim (lookup name streams) [
  | none ↦ assign_ids streams by_id more
  | some st ↦ assign_ids (insert name (record st { id = id }) streams) (insert id name by_id) more
]

pub on_register_ack : EdgeClientSession → Dict String ℕ → EdgeClientSession
on_register_ack s stream_ids =
    let (streams, by_id) = assign_ids s.streams [] stream_ids in
    record s { streams = streams; streams_by_id = by_id }

-- The state that an id stands for.
pub stream_by_id : EdgeClientSession → ℕ → Option StreamRecvState
stream_by_id s id = elim (lookup id s.streams_by_id) [
  | none ↦ none
  | some name ↦ lookup name s.streams
]

pub set_stream : EdgeClientSession → StreamRecvState → EdgeClientSession
set_stream s st = record s { streams = insert st.name st s.streams }

-- `handleData`, up to where its write waits; a frame for an unknown stream is dropped.
pub handle_data :
    Codec AckMsg → EdgeClientSession → Frame → EdgeClientSession × Handling × List Frame
handle_data ack s f = elim (stream_by_id s f.stream_id) [
  | none ↦ (s, dropped, [])
  | some st ↦
      (let (st', how, frames) = receive_data ack s.connected st f.payload (length f.payload) in
        (set_stream s st', how, frames))
]

pub handle_rst : EdgeClientSession → RstMsg → EdgeClientSession
handle_rst s msg = elim (stream_by_id s msg.stream_id) [
  | none ↦ s
  | some st ↦ set_stream s (receive_rst st msg)
]

-- The frames that `readLoop` handles, with the frames written in answer. A PONG only wakes the
-- timer.
pub read_loop_step :
    Codec AckMsg
    → Codec RstMsg
    → EdgeClientSession
    → Frame
    → EdgeClientSession × Handling × List Frame
read_loop_step ack rst s f =
    let reset : EdgeClientSession = elim (rst.unmarshal f.payload) [
      | none ↦ s
      | some msg ↦ handle_rst s msg
    ] in
    let pong : Frame = record { stream_id = 0; frame_type = type_pong; payload = [] } in
    if nat_beq f.frame_type type_data
    then handle_data ack s f
    else if nat_beq f.frame_type type_rst
    then (reset, done, [])
    else if nat_beq f.frame_type type_ping
    then (s, done, pong ∷ [])
    else (s, done, [])

-- The body of `ackLoop` over the states that were collected.
pub flush_acks : Codec AckMsg → EdgeClientSession → List String → EdgeClientSession × List Frame
flush_acks ack s [] = (s, [])
flush_acks ack s (name ∷ more) =
    let (s', frames) : EdgeClientSession × List Frame = elim (lookup name s.streams) [
      | none ↦ (s, [])
      | some st ↦ (let (st', fs) = flush_ack ack st in (set_stream s st', fs))
    ] in
    let (last, later) = flush_acks ack s' more in (last, frames ++ later)

-- The wait before the next try of `Run`, in seconds, after one that failed.
abbrev pub reconnect_base : ℕ
reconnect_base = 1

abbrev pub reconnect_max : ℕ
reconnect_max = 30

pub next_backoff : ℕ → Bool → ℕ
next_backoff backoff failed =
    if failed then (if ltb backoff reconnect_max then backoff * 2 else backoff) else reconnect_base
