-- ===== src/MuxHttp/Delivery/Examples.antt =====
-- The theorems about the delivery of a push stream on concrete runs.
use accel_proxy.MuxHttp.Delivery.{
  Delivery, Reach, calls, here, idle, new_delivery, next, receives, reconnects, resets, sends_data,
  sends_end, writes,
}
use accel_proxy.MuxHttp.Delivery.Invariant.{DecodesEnd}
use accel_proxy.MuxHttp.Delivery.Acks.{DecodesAck}
use accel_proxy.MuxHttp.Delivery.Safety.{closed-Reach, taken-Reach}
use accel_proxy.MuxHttp.Client.{
  Handling, StreamRecvState, dropped, flush_ack, new_stream_recv_state, receive_data, receive_rst,
  writing,
}
use accel_proxy.MuxHttp.Receive.Contents.{waiting}
use accel_proxy.MuxHttp.Sender.{
  StreamSendState, data_frame, ends, eof_frame, inflight, is_eof, new_stream_send_state, passes,
  send_read, send_round, sends, start_sender, wait_for_data, wait_window,
}
use accel_proxy.MuxHttp.Buffer.{
  append, append_loop, close, ends_after, extend_last, last_length, needs_segment,
  new_stream_buffer, read, read_loop, search, search_loop, with_room,
}
use accel_proxy.MuxHttp.Buffer.Calls.{append_call, close_call, logged, step}
use accel_proxy.MuxHttp.Registry.{StreamEntry}
use accel_proxy.MuxHttp.Frame.{Frame}
use accel_proxy.MuxHttp.Messages.{AckMsg, Codec, RstMsg, data_chunk_size, type_data, type_rst}
use accel_proxy.Common.{
  List, Option, [], false, length, none, refl, some, take, true, ◌*◌, ◌++◌, ◌+◌, ◌∷◌, ◌≡◌, ◌≢◌, ◌≤◌,
}
use accel_proxy.Common.Int.{ltz, pos}
use accel_proxy.MuxHttp.Receive.{reopen}
use accel_proxy.Wire.{Bytes}
use accel_proxy.MuxHttp.Delivery.Window.{inflight-Reach, wait_window-Reach}
use accel_proxy.MuxHttp.Receive.Passing.{close_closes}

unfoldable rst_of : Bytes → Option RstMsg
rst_of [] = none
rst_of (id ∷ more) = some (record { stream_id = id; reason = "EOF" })

unfoldable ack_of : Bytes → Option AckMsg
ack_of [] = none
ack_of (id ∷ []) = none
ack_of (id ∷ offset ∷ more) = some (record { stream_id = id; offset = offset })

abbrev rst : Codec RstMsg
rst = record { marshal = λ m. m.stream_id ∷ []; unmarshal = rst_of }

abbrev ack : Codec AckMsg
ack = record { marshal = λ m. m.stream_id ∷ m.offset ∷ []; unmarshal = ack_of }

rst-DecodesEnd : DecodesEnd rst
unfolding DecodesEnd rst_of
rst-DecodesEnd id = refl

ack-DecodesAck : DecodesAck ack
unfolding DecodesAck ack_of
ack-DecodesAck msg = refl

abbrev news : StreamEntry
news = record { name = "news"; id = 2; buffer = 0 }

abbrev start : Delivery
start = new_delivery (pos 10) news

abbrev pushed : Delivery
pushed = record start {
  buffer = step start.buffer (append_call (7 ∷ 8 ∷ []));
  log = start.log ++ logged start.buffer (append_call (7 ∷ 8 ∷ []));
}

abbrev sender_after : StreamSendState
sender_after = record (new_stream_send_state news) { send_offset = 2 }

abbrev chunk : Frame
chunk = record { stream_id = 2; frame_type = type_data; payload = 7 ∷ 8 ∷ [] }

sends_chunk : send_round rst pushed.buffer pushed.sender false true ≡ (sender_after, sends chunk)
unfolding new_delivery new_stream_send_state step append append_loop with_room extend_last
    last_length needs_segment new_stream_buffer send_round send_read wait_for_data wait_window
    inflight read read_loop search search_loop ends_after data_frame
sends_chunk = refl

abbrev sent : Delivery
sent = record pushed { sender = sender_after; wire = pushed.wire ++ (chunk ∷ []) }

abbrev received : Delivery
received = record sent { wire = []; handling = writing (7 ∷ 8 ∷ []) 2 }

abbrev stored_at : StreamRecvState × Handling × List Frame
stored_at = receive_data ack true received.receiver (7 ∷ 8 ∷ []) 2

abbrev stored_now : Delivery
stored_now = record received {
  receiver = stored_at.0;
  handling = stored_at.1;
  acks = received.acks ++ stored_at.2;
}

sent-Reach : Reach ack rst start sent
unfolding new_delivery
sent-Reach =
    next (next here (calls start (append_call (7 ∷ 8 ∷ []))))
      (sends_data pushed sender_after chunk refl sends_chunk)

stored_now-Reach : Reach ack rst start stored_now
unfolding new_delivery idle
stored_now-Reach =
    next (next sent-Reach (receives sent chunk [] refl refl refl))
      (writes received (7 ∷ 8 ∷ []) 2 refl)

taken-Reach_example :
    let got = stored_now.taken ++ waiting stored_now.receiver.buf in
    (got ≡ take (length got) stored_now.log)
    × (stored_now.handling ≢ dropped)
    × (idle stored_now.handling ≡ true → length got ≡ stored_now.receiver.recv_offset)
taken-Reach_example = taken-Reach ack rst (pos 10) news stored_now rst-DecodesEnd stored_now-Reach

inflight-Reach_example :
    (ltz (inflight stored_now.sender) (pos (8 * 1024 * 1024 + data_chunk_size)) ≡ true)
    × (stored_now.sender.acked_offset ≤ stored_now.receiver.recv_offset)
    × (stored_now.receiver.recv_offset ≤ stored_now.sender.send_offset)
inflight-Reach_example =
    inflight-Reach ack rst (pos 10) news stored_now rst-DecodesEnd ack-DecodesAck stored_now-Reach

-- The connection is lost with the chunk on the wire.
abbrev again : Delivery
again = record sent {
  sender = start_sender (new_stream_send_state news) sent.receiver.recv_offset;
  sending = true;
  wire = [];
  receiver = record (sent.receiver) { buf = reopen sent.receiver.buf };
  acks = [];
}

again-Reach : Reach ack rst start again
unfolding new_delivery idle new_stream_send_state
again-Reach = next sent-Reach (reconnects sent refl refl)

wait_window-Reach_example :
    (inflight again.sender ≡ pos 0) × (wait_window again.sender false ≡ passes)
unfolding new_delivery idle flush_ack start_sender new_stream_send_state new_stream_recv_state
wait_window-Reach_example =
    wait_window-Reach ack rst (pos 10) news again rst-DecodesEnd ack-DecodesAck again-Reach refl
      refl refl refl refl

abbrev finished : Delivery
finished = record start {
  buffer = step start.buffer (close_call none);
  log = start.log ++ logged start.buffer (close_call none);
}

abbrev eof : Frame
eof = record { stream_id = 2; frame_type = type_rst; payload = 2 ∷ [] }

sends_eof : send_round rst finished.buffer finished.sender false true ≡ (finished.sender, ends eof)
unfolding new_delivery new_stream_send_state step new_stream_buffer close send_round send_read
    wait_for_data wait_window inflight read read_loop search search_loop ends_after eof_frame is_eof
sends_eof = refl

abbrev told : Delivery
told = record finished { sending = false; wire = finished.wire ++ (eof ∷ []) }

abbrev over : Delivery
over = record told {
  wire = [];
  receiver = receive_rst told.receiver (record { stream_id = 2; reason = "EOF" });
}

over-Reach : Reach ack rst start over
unfolding new_delivery idle rst_of
over-Reach =
    next
      (next (next here (calls start (close_call none)))
        (sends_end finished finished.sender eof refl sends_eof))
      (resets told eof [] (record { stream_id = 2; reason = "EOF" }) refl refl refl refl)

over_closed : over.receiver.buf.closed ≡ true
unfolding receive_rst
over_closed = close_closes told.receiver.buf none

closed-Reach_example :
    (over.taken ++ waiting over.receiver.buf ≡ over.log) × (over.buffer.closed ≡ true)
closed-Reach_example = closed-Reach ack rst (pos 10) news over rst-DecodesEnd over-Reach over_closed
