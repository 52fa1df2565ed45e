-- ===== src/MuxHttp/Delivery/Safety.antt =====
-- What reaches the consumer of a push stream: the log of the stream, without a gap and in order,
-- however often the connection is lost; and the end of the stream only after all of it.
use accel_proxy.MuxHttp.Delivery.Invariant.{DecodesEnd, Flows, Wired, arrived, idle-done, payloads}
use accel_proxy.MuxHttp.Delivery.{
  Delivery, Reach, Step, acknowledges, calls, flushes, here, idle, new_delivery, next, reads,
  receives, reconnects, removes, resets, sends_data, sends_end, writes,
}
use accel_proxy.Common.{
  [], ap, append-nil, append-prefix, ap₂, arith, length, sym, take, take_all, true, ◌++◌, ◌+◌, ◌∙◌,
  ◌≡◌, ◌≢◌,
}
use accel_proxy.MuxHttp.Client.{dropped, new_stream_recv_state, recv_buf_cap}
use accel_proxy.MuxHttp.Messages.{AckMsg, Codec, RstMsg}
use accel_proxy.MuxHttp.Client.Storing.{in_hand, unwritten}
use accel_proxy.Common.Int.{ℤ}
use accel_proxy.MuxHttp.Receive.Contents.{waiting}
use accel_proxy.MuxHttp.Delivery.Receiving.{reads-Flows, receives-Flows, resets-Flows, writes-Flows}
use accel_proxy.MuxHttp.Delivery.Renewing.{
  acknowledges-Flows, flushes-Flows, reconnects-Flows, removes-Flows,
}
use accel_proxy.MuxHttp.Delivery.Sending.{calls-Flows, sends_data-Flows, sends_end-Flows}
use accel_proxy.MuxHttp.Registry.{StreamEntry}
use accel_proxy.MuxHttp.Receive.Passing.{new_recv_buffer_lem}
use accel_proxy.MuxHttp.Sender.{new_stream_send_state}
use accel_proxy.MuxHttp.Buffer.Calls.{new-Holds}

new-Flows : (rst : Codec RstMsg) (m : ℤ) (entry : StreamEntry) → Flows rst (new_delivery m entry)
unfolding new_delivery new_stream_send_state new_stream_recv_state arrived unwritten payloads
    in_hand Wired
new-Flows rst m entry =
    let (w, e, c) = new_recv_buffer_lem recv_buf_cap (omega arith) in
    record {
      held_log = new-Holds m;
      recv = w;
      whole = ap (λ t. t ++ []) e;
      counted = ap (λ t. length t + 0) e;
      sent_in = omega arith;
      wired = tt;
      not_dropped = λ t. cc;
      ended = λ t. cc;
      closed_at = λ t. absurd (let f = c in cc);
    }

step-Flows :
    (ack : Codec AckMsg) (rst : Codec RstMsg) (d e : Delivery)
    → DecodesEnd rst
    → Step ack rst d e
    → Flows rst d
    → Flows rst e
step-Flows ack rst _ _ law (calls d c) v = calls-Flows rst d c v
step-Flows ack rst _ _ law (sends_data d s f r p) v = sends_data-Flows rst d s f r p v
step-Flows ack rst _ _ law (sends_end d s f r p) v = sends_end-Flows rst law d s f r p v
step-Flows ack rst _ _ law (receives d f rest i p t) v = receives-Flows ack rst d f rest i p t v
step-Flows ack rst _ _ law (writes d left len h) v = writes-Flows ack rst d left len h v
step-Flows ack rst _ _ law (resets d f rest msg i p t q) v =
    resets-Flows ack rst d f rest msg i p t v
step-Flows ack rst _ _ law (reads d n) v = reads-Flows ack rst d n v
step-Flows ack rst _ _ law (flushes d) v = flushes-Flows ack rst d v
step-Flows ack rst _ _ law (acknowledges d f rest msg p q) v =
    acknowledges-Flows ack rst d rest msg.offset v
step-Flows ack rst _ _ law (removes d c) v = removes-Flows ack rst d v
step-Flows ack rst _ _ law (reconnects d i g) v = reconnects-Flows ack rst d i v

pub Reach-Flows :
    (ack : Codec AckMsg) (rst : Codec RstMsg) (m : ℤ) (entry : StreamEntry) (d : Delivery)
    → DecodesEnd rst
    → Reach ack rst (new_delivery m entry) d
    → Flows rst d
Reach-Flows ack rst m entry _ law here = new-Flows rst m entry
Reach-Flows ack rst m entry _ law (next {d = d} {e = e} r s) =
    step-Flows ack rst d e law s (Reach-Flows ack rst m entry d law r)

-- Whatever the origin pushes, however its buffer is trimmed, and however often the connection is
-- lost and the edge registers again with its offset, as long as its registrations find the entry of the
-- stream (`trimAll` removes that of a closed stream without a subscriber, after which an edge of the
-- same name starts on another stream): what the consumer has read, followed by what
-- waits in its buffer, is a prefix of the log of accepted chunks; no DATA frame is ever dropped by
-- the edge; and between two frames that prefix is as long as the offset that the edge resumes at.
-- The codec of RST messages gives back the reason that it was given.
pub taken-Reach :
    (ack : Codec AckMsg) (rst : Codec RstMsg) (m : ℤ) (entry : StreamEntry) (d : Delivery)
    → DecodesEnd rst
    → Reach ack rst (new_delivery m entry) d
    → let got = d.taken ++ waiting d.receiver.buf in
      (got ≡ take (length got) d.log)
      × (d.handling ≢ dropped)
      × (idle d.handling ≡ true → length got ≡ d.receiver.recv_offset)
unfolding arrived unwritten in_hand
taken-Reach ack rst m entry d law r =
    let v = Reach-Flows ack rst m entry d law r in
    (
      append-prefix (arrived d) (unwritten d.handling ++ payloads d.wire) d.log d.sender.send_offset
          v.whole,
      v.not_dropped,
      λ i.
          let h = idle-done d.handling i v.not_dropped in
          omega (arith, v.counted, ap (λ x. length (unwritten x)) h, ap in_hand h),
    )

-- In the same runs, those of an edge whose registrations find the entry of the stream: when the edge's
-- buffer is closed, the stream at the origin is closed too, and what the consumer
-- has read, followed by what waits for it, is the whole log: the end of a stream never cuts it short.
-- The codec of RST messages gives back the reason that it was given.
pub closed-Reach :
    (ack : Codec AckMsg) (rst : Codec RstMsg) (m : ℤ) (entry : StreamEntry) (d : Delivery)
    → DecodesEnd rst
    → Reach ack rst (new_delivery m entry) d
    → d.receiver.buf.closed ≡ true
    → (d.taken ++ waiting d.receiver.buf ≡ d.log) × (d.buffer.closed ≡ true)
unfolding arrived unwritten payloads
closed-Reach ack rst m entry d law r c =
    let v = Reach-Flows ack rst m entry d law r in
    let (s, w, i) = v.closed_at c in
    let (l, b) = v.ended s in
    let h = idle-done d.handling i v.not_dropped in
    (
      sym (append-nil (arrived d))
          ∙ ap₂ (λ x y. arrived d ++ (unwritten x ++ payloads y)) (sym h) (sym w)
          ∙ v.whole
          ∙ take_all d.sender.send_offset d.log l,
      b,
    )
