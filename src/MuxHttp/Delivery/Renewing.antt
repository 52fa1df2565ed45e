-- ===== src/MuxHttp/Delivery/Renewing.antt =====
-- The invariant of a push stream across its acknowledgements and across a reconnection.
use accel_proxy.MuxHttp.Delivery.Invariant.{Flows, Wired, arrived, idle-done, payloads}
use accel_proxy.MuxHttp.Delivery.{Delivery, idle}
use accel_proxy.Common.{
  List, [], ap, append-nil, append-prefix, arith, false, if_both, length, length-append,
  length-take, ltb, sym, take, true, ℕ, ◌++◌, ◌+◌, ◌∙◌, ◌∷◌, ◌≡◌,
}
use accel_proxy.MuxHttp.Client.{StreamRecvState, ack_frame, flush_ack, send_ack_with_conn}
use accel_proxy.MuxHttp.Frame.{Frame}
use accel_proxy.MuxHttp.Messages.{AckMsg, Codec, RstMsg}
use accel_proxy.MuxHttp.Receive.Passing.{reopen-waiting, reopen_opens}
use accel_proxy.MuxHttp.Client.Storing.{in_hand, unwritten}
use accel_proxy.MuxHttp.Receive.{reopen}
use accel_proxy.MuxHttp.Receive.Contents.{waiting}
use accel_proxy.MuxHttp.Sender.{new_stream_send_state, start_sender, update_ack}
use accel_proxy.MuxHttp.Sender.Rounds.{send_offset-update_ack}

module _ (ack : Codec AckMsg) (rst : Codec RstMsg) where
  pub acknowledges-Flows :
      (d : Delivery) (rest : List Frame) (offset : ℕ)
      → Flows rst d
      → Flows rst (record d { acks = rest; sender = update_ack d.sender offset })
  unfolding arrived
  acknowledges-Flows d rest offset v =
      let e = send_offset-update_ack d.sender offset in
      record {
        held_log = v.held_log;
        recv = v.recv;
        whole = v.whole ∙ ap (λ k. take k d.log) (sym e);
        counted = v.counted;
        sent_in = omega (arith, e, v.sent_in);
        wired = v.wired;
        not_dropped = v.not_dropped;
        ended = λ t. (let (l, c) = v.ended t in (omega (arith, e, l), c));
        closed_at = v.closed_at;
      }

  acked-Flows :
      (d : Delivery) (acked : ℕ) (acks : List Frame)
      → Flows rst d
      → Flows rst
          (record d { receiver = record (d.receiver) { acked_offset = acked }; acks = acks })
  unfolding arrived
  acked-Flows d acked acks v = record {
    held_log = v.held_log;
    recv = v.recv;
    whole = v.whole;
    counted = v.counted;
    sent_in = v.sent_in;
    wired = v.wired;
    not_dropped = v.not_dropped;
    ended = v.ended;
    closed_at = v.closed_at;
  }

  pub flushes-Flows :
      (d : Delivery)
      → Flows rst d
      → Flows rst (record d {
        receiver = (flush_ack ack d.receiver).0;
        acks = d.acks ++ (flush_ack ack d.receiver).1;
      })
  unfolding flush_ack send_ack_with_conn
  flushes-Flows d v =
      if_both
        (λ (r : StreamRecvState × List Frame).
          Flows rst (record d { receiver = r.0; acks = d.acks ++ r.1 }))
        (ltb d.receiver.acked_offset d.receiver.recv_offset)
        (λ t. acked-Flows d d.receiver.recv_offset (d.acks ++ (ack_frame ack d.receiver ∷ [])) v)
        (λ t. acked-Flows d d.receiver.acked_offset (d.acks ++ []) v)

  pub reconnects-Flows :
      (d : Delivery)
      → idle d.handling ≡ true
      → Flows rst d
      → Flows rst (record d {
        sender = start_sender (new_stream_send_state d.sender.entry) d.receiver.recv_offset;
        sending = true;
        wire = [];
        receiver = record (d.receiver) { buf = reopen d.receiver.buf };
        acks = [];
      })
  unfolding arrived unwritten in_hand payloads Wired start_sender new_stream_send_state
  reconnects-Flows d i v =
      let h = idle-done d.handling i v.not_dropped in
      let n : length (arrived d) ≡ d.receiver.recv_offset =
        omega (arith, v.counted, ap (λ x. length (unwritten x)) h, ap in_hand h) in
      let (same, w) = reopen-waiting d.receiver.buf v.recv in
      record {
        held_log = v.held_log;
        recv = w;
        whole =
            ap (λ x. (d.taken ++ waiting (reopen d.receiver.buf)) ++ (unwritten x ++ [])) h
            ∙ append-nil (d.taken ++ waiting (reopen d.receiver.buf))
            ∙ ap (λ a. d.taken ++ a) same
            ∙ append-prefix (arrived d) (unwritten d.handling ++ payloads d.wire) d.log
                d.sender.send_offset v.whole
            ∙ ap (λ k. take k d.log) n;
        counted = ap (λ a. length (d.taken ++ a) + length (unwritten d.handling)) same ∙ v.counted;
        sent_in = omega (
          arith,
          n,
          v.sent_in,
          ap length v.whole,
          length-append (arrived d) (unwritten d.handling ++ payloads d.wire),
          length-take d.sender.send_offset d.log,
        );
        wired = tt;
        not_dropped = v.not_dropped;
        ended = λ e. cc;
        closed_at = λ c. absurd (let h = reopen_opens d.receiver.buf in cc);
      }

  pub removes-Flows : (d : Delivery) → Flows rst d → Flows rst (record d { registered = false })
  unfolding arrived
  removes-Flows d v = record {
    held_log = v.held_log;
    recv = v.recv;
    whole = v.whole;
    counted = v.counted;
    sent_in = v.sent_in;
    wired = v.wired;
    not_dropped = v.not_dropped;
    ended = v.ended;
    closed_at = v.closed_at;
  }
