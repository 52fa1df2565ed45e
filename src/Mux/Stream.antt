-- ===== src/Mux/Stream.antt =====
-- internal/mux/muxproto/stream.go: one request-response stream with flow control in each
-- direction. A window tracker is the credit that it holds, without a bound; JSON decoding is
-- a parameter.
pub mod Phases
pub mod Reading
pub mod Carrying
use accel_proxy.Common.{
  Bool, List, Option, String, [], false, get_or, if◌then◌else◌, is_some, length, ltb, nat_beq, none,
  not, some, true, ℕ, ◌%◌, ◌*◌, ◌++◌, ◌+◌, ◌^◌, ◌||◌, ◌∷◌,
}
use accel_proxy.Common.Int.{ltz, pos, signed32, ℤ, ◌+ℤ◌, ◌-ℤ◌}
use accel_proxy.Mux.Frame.{Frame, has_end_stream, type_window_update}
use accel_proxy.Mux.Pipe.{
  Outcome, PipeError, StreamPipe, close_write, new_stream_pipe, read, returns, stream_reset, waits,
  write_non_block,
}
use accel_proxy.Wire.{Bytes, put_uint32, uint32}

pub record RequestMeta : Type 0 where
  pub method : String
  pub url : String
  pub host : String
  pub headers : List (String × List String)

pub record ResponseMeta : Type 0 where
  pub status_code : ℤ
  pub headers : List (String × List String)

-- `encoding/json` at the types that the mux exchanges: `none` is a decoding error.
pub record Json : Type 0 where
  pub request : Bytes → Option RequestMeta
  pub response : Bytes → Option ResponseMeta

abbrev pub phase_request : ℕ
phase_request = 0

abbrev pub phase_response : ℕ
phase_response = 1

-- `StreamPhase.toInt32`, which does not look at its receiver.
pub to_int32 : ℕ → ℕ
to_int32 phase = phase_request

abbrev pub pipe_buf_size : ℕ
pipe_buf_size = 512 * 1024

abbrev pub window_update_batch : ℕ
window_update_batch = 32 * 1024

abbrev pub win_update_payload_size : ℕ
win_update_payload_size = 5

abbrev pub win_dir_request : ℕ
win_dir_request = 0

abbrev pub win_dir_response : ℕ
win_dir_response = 1

pub record Stream : Type 0 where
  pub id : ℕ
  -- channels with room for one value
  pub req_headers : Option RequestMeta
  pub resp_headers : Option ResponseMeta
  pub req_body : StreamPipe
  pub resp_body : StreamPipe
  pub phase : ℕ
  pub send_window_req : ℤ
  pub send_window_resp : ℤ
  pub is_closed : Bool

pub data StreamError : Type 0 where
  parse_request_headers parse_response_headers cancelled reset : StreamError
  pipe_violation : ℕ → PipeError → StreamError

unfoldable pub new_stream : ℕ → Stream
new_stream id = record {
  id = id;
  req_headers = none;
  resp_headers = none;
  req_body = new_stream_pipe (pos pipe_buf_size);
  resp_body = new_stream_pipe (pos pipe_buf_size);
  phase = phase_request;
  send_window_req = pos pipe_buf_size;
  send_window_resp = pos pipe_buf_size;
  is_closed = false;
}

-- How `windowTracker.Acquire` ends, with the credit left. It looks for credit before it looks at
-- the context and the stream, and waits where it finds neither credit nor an end.
pub data Acquired : Type 0 where
  granted : ℤ → Acquired
  refused : StreamError → Acquired
  blocked : Acquired

unfoldable pub acquire : ℤ → ℤ → Bool → Bool → Acquired
acquire avail n ctx_done closed =
    if ltz avail n
    then (if ctx_done then refused cancelled else if closed then refused reset else blocked)
    else granted (avail -ℤ n)

unfoldable pub release : ℤ → ℤ → ℤ
release avail n = avail +ℤ n

-- A send on a channel of one place that drops what does not fit.
abbrev offer {ℓ} : {A : Type ℓ} → A → Option A → Option A
offer a none = some a
offer a (some b) = some b

-- `OnHeaders`: the stream after the call, or the error.
pub on_headers : Json → Stream → Frame → Stream × Option StreamError
on_headers json s f =
    if nat_beq s.phase phase_request
    then elim (json.request f.payload) [
      | none ↦ (s, some parse_request_headers)
      | some meta ↦ (record s { req_headers = offer meta s.req_headers }, none)
    ]
    else elim (json.response f.payload) [
      | none ↦ (s, some parse_response_headers)
      | some meta ↦ (record s { resp_headers = offer meta s.resp_headers }, none)
    ]

-- The pipe that incoming data goes to.
pub body_pipe : Stream → StreamPipe
body_pipe s = if nat_beq s.phase phase_request then s.req_body else s.resp_body

pub set_body_pipe : Stream → StreamPipe → Stream
set_body_pipe s p =
    if nat_beq s.phase phase_request then record s { req_body = p } else record s { resp_body = p }

-- The end of `OnData`, once the payload is in the pipe.
pub end_stream : Stream → Stream
end_stream s =
    let s' = set_body_pipe s (close_write (body_pipe s) none) in
    if nat_beq s.phase phase_request then record s' { phase = to_int32 phase_response } else s'

pub on_data : Stream → Frame → Stream × Option StreamError
unfolding body_pipe set_body_pipe end_stream to_int32
on_data s f =
    let (p, n, e) =
      (if ltb 0 (length f.payload)
        then write_non_block (body_pipe s) f.payload
        else (body_pipe s, 0, none)) in
    elim e [
      | some x ↦ (set_body_pipe s p, some (pipe_violation s.id x))
      | none ↦ let s' = set_body_pipe s p in (if has_end_stream f then end_stream s' else s', none)
    ]

-- `Close`; waking the waiters changes no state.
unfoldable pub close : Stream → Stream
close s = record s { is_closed = true }

unfoldable pub on_rst : Stream → String → Stream
unfolding close
on_rst s reason = close (record s {
  req_body = close_write s.req_body (some (stream_reset reason));
  resp_body = close_write s.resp_body (some (stream_reset reason));
})

pub on_window_update : Stream → Bytes → Stream
on_window_update s payload =
    let increment = signed32 (uint32 payload 0) in
    if ltb (length payload) win_update_payload_size
    then s
    else if nat_beq (get_or payload 4 0) win_dir_request
    then record s { send_window_req = release s.send_window_req increment }
    else record s { send_window_resp = release s.send_window_resp increment }

-- `RecvRequestHeaders` and `RecvResponseHeaders`: a value, a closed stream, or a wait. Where both
-- a value and the end are there Go may choose either; a value is taken first here.
pub data Received {ℓ} (A : Type ℓ) : Type ℓ where
  value : A → Received A
  ended : Received A
  nothing_yet : Received A

pub recv_request_headers : Stream → Stream × Received RequestMeta
recv_request_headers s = elim s.req_headers [
  | some meta ↦ (record s { req_headers = none }, value meta)
  | none ↦ if s.is_closed then (s, ended) else (s, nothing_yet)
]

unfoldable pub recv_response_headers : Stream → Stream × Received ResponseMeta
recv_response_headers s = elim s.resp_headers [
  | some meta ↦ (record s { resp_headers = none }, value meta)
  | none ↦ if s.is_closed then (s, ended) else (s, nothing_yet)
]

-- `WindowUpdateReader`: `pending_inc` is the bit pattern of an `int32`.
pub record WindowUpdateReader : Type 0 where
  pub pipe : StreamPipe
  pub sid : ℕ
  pub dir : ℕ
  pub pending_inc : ℕ

-- The frame that `flush` sends.
pub window_update : WindowUpdateReader → Frame
window_update r = record {
  stream_id = r.sid;
  frame_type = type_window_update;
  flags = 0;
  payload = put_uint32 r.pending_inc ++ (r.dir % 256 ∷ []);
}

-- `flush`, on a connection that takes the frame or fails: the frames sent.
pub flush : Bool → WindowUpdateReader → WindowUpdateReader × List Frame
flush up r =
    if ltz (pos 0) (signed32 r.pending_inc)
    then (if up then (record r { pending_inc = 0 }, window_update r ∷ []) else (r, []))
    else (r, [])

-- The rest of `WindowUpdateReader.Read`, once the pipe has answered.
pub count_read :
    Bool → WindowUpdateReader → Outcome Bytes → WindowUpdateReader × Outcome Bytes × List Frame
count_read up r (waits out) = (r, waits out, [])
count_read up r (returns out e) =
    let r' = record r { pending_inc = (r.pending_inc + length out) % 2 ^ 32 } in
    let full = not (ltz (signed32 r'.pending_inc) (pos window_update_batch)) in
    let (r'', sent) = (if full || is_some e then flush up r' else (r', [])) in
    if ltb 0 (length out) then (r'', returns out e, sent) else (r, returns out e, [])

-- `WindowUpdateReader.Read`
pub window_read : Bool → WindowUpdateReader → ℕ → WindowUpdateReader × Outcome Bytes × List Frame
window_read up r n = let (p, o) = read r.pipe n in count_read up (record r { pipe = p }) o
