-- ===== src/MuxHttp/Delivery/Window.antt =====
-- The window of a push stream: what is under way to an edge is bounded, and acknowledgements open
-- the window again.
use accel_proxy.MuxHttp.Delivery.Acks.{
  Acked, Counts-Acked, DecodesAck, acknowledges-Acked, caught_up, caught_up_le, reconnects-Acked,
  sends-Acked,
}
use accel_proxy.Common.{
  [], ap, arith, drop, false, length, length-append, length-take, refl, subst, sym, true, ◌*◌, ◌++◌,
  ◌+◌, ◌≡◌, ◌≤◌,
}
use accel_proxy.MuxHttp.Messages.{AckMsg, Codec, RstMsg, data_chunk_size}
use accel_proxy.MuxHttp.Sender.{inflight, new_stream_send_state, passes, wait_window}
use accel_proxy.Common.Int.{ltz, pos, ℤ}
use accel_proxy.MuxHttp.Client.{
  StreamRecvState, flush_ack, new_stream_recv_state, receive_data, receive_rst, send_ack_with_conn,
}
use accel_proxy.MuxHttp.Client.Storing.{flush_ack-Counts, in_hand, receive_data-Counts, unwritten}
use accel_proxy.MuxHttp.Delivery.Invariant.{DecodesEnd, Flows, arrived, idle-done, payloads}
use accel_proxy.MuxHttp.Delivery.Safety.{Reach-Flows}
use accel_proxy.MuxHttp.Delivery.{
  Delivery, Reach, Step, acknowledges, calls, flushes, here, idle, new_delivery, next, reads,
  receives, reconnects, removes, resets, sends_data, sends_end, writes,
}
use accel_proxy.MuxHttp.Sender.Rounds.{chunk_at, round_ends, round_sends, wait_window-none}
use accel_proxy.MuxHttp.Registry.{StreamEntry}

abbrev AckedAt : Codec AckMsg → Delivery → Type 0
AckedAt ack d = Acked ack d.sender d.acks d.receiver.recv_offset d.receiver.acked_offset

step-Acked :
    (ack : Codec AckMsg) (rst : Codec RstMsg) (d e : Delivery)
    → DecodesAck ack
    → Step ack rst d e
    → Flows rst d
    → AckedAt ack d
    → AckedAt ack e
unfolding receive_rst chunk_at
step-Acked ack rst _ _ law (calls d c) v w = w
step-Acked ack rst _ _ law (sends_data d s f r p) v w =
    let (q, x, l, k) = round_sends rst d.buffer d.log d.sender s f v.held_log p in
    subst (λ t. Acked ack t d.acks d.receiver.recv_offset d.receiver.acked_offset) (sym q)
      (sends-Acked ack d.sender d.acks d.receiver.recv_offset d.receiver.acked_offset w
        (length (chunk_at d.log d.sender.send_offset)) k
        (omega (arith, length-take data_chunk_size (drop d.sender.send_offset d.log))))
step-Acked ack rst _ _ law (sends_end d s f r p) v w =
    let (q, x, l, k) = round_ends rst d.buffer d.log d.sender s f v.held_log p in
    subst (λ t. Acked ack t d.acks d.receiver.recv_offset d.receiver.acked_offset) (sym q) w
step-Acked ack rst _ _ law (receives d f rest i p t) v w = w
step-Acked ack rst _ _ law (writes d left len h) v w =
    let (st', how, frames) = receive_data ack true d.receiver left len in
    Counts-Acked ack d.sender d.acks d.receiver.recv_offset d.receiver.acked_offset w d.receiver st'
      frames law refl refl (receive_data-Counts ack d.receiver true left len)
step-Acked ack rst _ _ law (resets d f rest msg i p t q) v w = w
step-Acked ack rst _ _ law (reads d n) v w = w
step-Acked ack rst _ _ law (flushes d) v w =
    let (st', frames) = flush_ack ack d.receiver in
    Counts-Acked ack d.sender d.acks d.receiver.recv_offset d.receiver.acked_offset w d.receiver st'
      frames law refl refl (flush_ack-Counts ack d.receiver)
step-Acked ack rst _ _ law (acknowledges d f rest msg p q) v w =
    acknowledges-Acked ack d.sender d.acks d.receiver.recv_offset d.receiver.acked_offset w f rest
      msg p q
step-Acked ack rst _ _ law (removes d c) v w = w
step-Acked ack rst _ _ law (reconnects d i g) v w =
    reconnects-Acked ack d.sender d.acks d.receiver.recv_offset d.receiver.acked_offset w
      d.sender.entry

Reach-Acked :
    (ack : Codec AckMsg) (rst : Codec RstMsg) (m : ℤ) (entry : StreamEntry) (d : Delivery)
    → DecodesEnd rst
    → DecodesAck ack
    → Reach ack rst (new_delivery m entry) d
    → AckedAt ack d
unfolding new_delivery new_stream_send_state new_stream_recv_state caught_up
Reach-Acked ack rst m entry _ law k here = record {
  all_in = omega arith;
  latest = omega arith;
  window_is = refl;
  bounded = omega arith;
}
Reach-Acked ack rst m entry _ law k (next {d = d} {e = e} r s) =
    step-Acked ack rst d e k s (Reach-Flows ack rst m entry d law r)
      (Reach-Acked ack rst m entry d law k r)

recv_le_sent :
    (rst : Codec RstMsg) (d : Delivery)
    → Flows rst d
    → d.receiver.recv_offset ≤ d.sender.send_offset
recv_le_sent rst d v = omega (
  arith,
  v.counted,
  v.sent_in,
  ap length v.whole,
  length-append (arrived d) (unwritten d.handling ++ payloads d.wire),
  length-append (unwritten d.handling) (payloads d.wire),
  length-take d.sender.send_offset d.log,
)

sent_le_recv :
    (rst : Codec RstMsg) (d : Delivery)
    → Flows rst d
    → d.wire ≡ []
    → idle d.handling ≡ true
    → d.sender.send_offset ≤ d.receiver.recv_offset
unfolding unwritten in_hand payloads
sent_le_recv rst d v e i =
    let h = idle-done d.handling i v.not_dropped in
    omega (
      arith,
      v.counted,
      v.sent_in,
      ap length v.whole,
      ap (λ x. length (unwritten x)) h,
      ap (λ x. length (payloads x)) e,
      ap in_hand h,
      length-append (arrived d) (unwritten d.handling ++ payloads d.wire),
      length-append (unwritten d.handling) (payloads d.wire),
      length-take d.sender.send_offset d.log,
    )

flush_ack-none :
    (ack : Codec AckMsg) (st : StreamRecvState)
    → (flush_ack ack st).1 ≡ []
    → st.recv_offset ≤ st.acked_offset
unfolding flush_ack send_ack_with_conn
flush_ack-none ack st e = ground arith

-- What the sender has put on the wire and has no acknowledgement for is less than its window of
-- 8 MiB and one chunk of 32 KiB more, and the acknowledged offset is never past what the edge has
-- received, nor that past what was sent. The codecs give back the messages that they were given.
pub inflight-Reach :
    (ack : Codec AckMsg) (rst : Codec RstMsg) (m : ℤ) (entry : StreamEntry) (d : Delivery)
    → DecodesEnd rst
    → DecodesAck ack
    → Reach ack rst (new_delivery m entry) d
    → (ltz (inflight d.sender) (pos (8 * 1024 * 1024 + data_chunk_size)) ≡ true)
      × (d.sender.acked_offset ≤ d.receiver.recv_offset)
      × (d.receiver.recv_offset ≤ d.sender.send_offset)
unfolding inflight
inflight-Reach ack rst m entry d law k r =
    let v = Reach-Flows ack rst m entry d law r in
    let w = Reach-Acked ack rst m entry d law k r in
    let a : d.sender.acked_offset ≤ d.receiver.recv_offset =
      omega (arith, w.all_in, caught_up_le ack d.sender.acked_offset d.acks) in
    let b = recv_le_sent rst d v in (ground (arith, w.bounded, a, b), a, b)

-- The sender is never stuck: when nothing is under way in either direction, the edge's read loop is
-- between two frames and its timer has run, nothing is in flight, so that a sender that is not
-- evicted finds its window open. The codecs give back the messages that they were given.
pub wait_window-Reach :
    (ack : Codec AckMsg) (rst : Codec RstMsg) (m : ℤ) (entry : StreamEntry) (d : Delivery)
    → DecodesEnd rst
    → DecodesAck ack
    → Reach ack rst (new_delivery m entry) d
    → d.wire ≡ []
    → d.acks ≡ []
    → idle d.handling ≡ true
    → (flush_ack ack d.receiver).1 ≡ []
    → d.sender.evicted ≡ false
    → (inflight d.sender ≡ pos 0) × (wait_window d.sender false ≡ passes)
unfolding inflight caught_up
wait_window-Reach ack rst m entry d law k r e f g h i =
    let v = Reach-Flows ack rst m entry d law r in
    let w = Reach-Acked ack rst m entry d law k r in
    let a = caught_up_le ack d.sender.acked_offset d.acks in
    let b = recv_le_sent rst d v in
    let c = sent_le_recv rst d v e g in
    let u = ap (caught_up ack d.sender.acked_offset) f in
    let x : inflight d.sender ≡ pos 0 =
      ground (arith, a, b, c, u, w.all_in, w.latest, flush_ack-none ack d.receiver h) in
    (x, wait_window-none d.sender i w.window_is x)
