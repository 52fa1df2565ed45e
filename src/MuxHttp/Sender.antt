-- ===== src/MuxHttp/Sender.antt =====
-- internal/mux_http/server/session.go: `streamSendState`, the sending side of one push stream to one
-- edge, and a round of the loop of `startSender`. An offset counts bytes and is not negative.
pub mod Rounds
use accel_proxy.Common.{
  Bool, Option, false, if◌then◌else◌, leb, length, nat_beq, none, not, some, true, ℕ, ◌&&◌, ◌*◌,
  ◌+◌,
}
use accel_proxy.Common.Int.{ltz, pos, ℤ, ◌-ℤ◌}
use accel_proxy.Wire.{Bytes}
use accel_proxy.MuxHttp.Frame.{Frame}
use accel_proxy.MuxHttp.Messages.{Codec, RstMsg, data_chunk_size, type_data, type_rst}
use accel_proxy.MuxHttp.Buffer.{
  StreamBuffer, StreamError, buffer_closed, closed_with, end_of_stream, offset_evicted, read,
}
use accel_proxy.MuxHttp.Registry.{StreamEntry}

abbrev pub default_send_window : ℤ
default_send_window = pos (8 * 1024 * 1024)

pub record StreamSendState : Type 0 where
  pub entry : StreamEntry
  pub send_offset : ℕ
  pub acked_offset : ℕ
  pub window : ℤ
  pub evicted : Bool

unfoldable pub new_stream_send_state : StreamEntry → StreamSendState
new_stream_send_state entry = record {
  entry = entry;
  send_offset = 0;
  acked_offset = 0;
  window = default_send_window;
  evicted = false;
}

unfoldable pub inflight : StreamSendState → ℤ
inflight s = pos s.send_offset -ℤ pos s.acked_offset

unfoldable pub update_ack : StreamSendState → ℕ → StreamSendState
update_ack s offset = if leb offset s.acked_offset then s else record s { acked_offset = offset }

pub evict : StreamSendState → StreamSendState
evict s = record s { evicted = true }

-- How a wait ends, when it is looked at: it goes on, it is over, or the loop returns.
pub data Awaited : Type 0 where
  blocks passes gives_up : Awaited

-- `StreamBuffer.WaitForData`, and the test of the context after it.
unfoldable pub wait_for_data : StreamBuffer → Bool → ℕ → Awaited
wait_for_data b ctx_done offset =
    if ctx_done
    then gives_up
    else if not b.closed && leb b.write_offset offset
    then blocks
    else passes

unfoldable pub wait_window : StreamSendState → Bool → Awaited
wait_window s ctx_done =
    if ctx_done
    then gives_up
    else if s.evicted
    then gives_up
    else if ltz (inflight s) s.window
    then passes
    else blocks

-- Whether an error of the buffer is `io.EOF`.
unfoldable pub is_eof : StreamError → Bool
is_eof end_of_stream = true
is_eof offset_evicted = false
is_eof buffer_closed = false
is_eof (closed_with why) = false

-- What a round of the sender does: it waits or goes round again, returns, returns after the RST
-- frame, closes the session and returns, or goes on after a DATA frame.
pub data Round : Type 0 where
  idles stops closes : Round
  ends : Frame → Round
  sends : Frame → Round

unfoldable pub data_frame : StreamSendState → Bytes → Frame
data_frame s chunk = record { stream_id = s.entry.id; frame_type = type_data; payload = chunk }

unfoldable pub eof_frame : Codec RstMsg → StreamSendState → Frame
eof_frame rst s = record {
  stream_id = s.entry.id;
  frame_type = type_rst;
  payload = rst.marshal (record { stream_id = s.entry.id; reason = "EOF" });
}

-- What follows the read of the buffer; `written` tells whether `WriteFrame` succeeds.
unfoldable pub send_read :
    Codec RstMsg → StreamSendState → Bool → Bytes × Option StreamError → StreamSendState × Round
send_read rst s written (chunk, some e) = (s, if is_eof e then ends (eof_frame rst s) else closes)
send_read rst s written (chunk, none) =
    if nat_beq (length chunk) 0
    then (s, idles)
    else if written
    then (record s { send_offset = s.send_offset + length chunk }, sends (data_frame s chunk))
    else (s, closes)

-- One round of the loop of `startSender`. Its own `offset` starts at the send offset and moves
-- with it.
unfoldable pub send_round :
    Codec RstMsg → StreamBuffer → StreamSendState → Bool → Bool → StreamSendState × Round
send_round rst b s ctx_done written =
    let sent = send_read rst s written (read b s.send_offset data_chunk_size) in
    elim (wait_for_data b ctx_done s.send_offset) [
      | blocks ↦ (s, idles)
      | gives_up ↦ (s, stops)
      | passes ↦ elim (wait_window s ctx_done) [
        | blocks ↦ (s, idles)
        | gives_up ↦ (s, stops)
        | passes ↦ sent
      ]
    ]

-- `startSender`, and before it the resume offset of the REGISTER message.
unfoldable pub start_sender : StreamSendState → ℕ → StreamSendState
start_sender s resume_offset = record s {
  send_offset = resume_offset;
  acked_offset = resume_offset;
}
