-- ===== src/MuxHttp/Delivery/Sending.antt =====
-- The invariant of a push stream across the steps of the server.
use accel_proxy.MuxHttp.Delivery.Invariant.{
  DecodesEnd, Flows, IsEnd, Wired-data, Wired-end, append-payloads, arrived, data_frame-payload,
  eof_frame-IsEnd, eof_frame-payload, payload_of,
}
use accel_proxy.MuxHttp.Delivery.{Delivery}
use accel_proxy.Common.{
  [], ap, append-nil, ap₂, arith, drop, false, length, length-append, length-drop, length-take,
  subst, sym, take, take-append_le, take-chunk, true, ◌++◌, ◌+◌, ◌∙◌, ◌∷◌, ◌≡◌, ◌≤◌,
}
use accel_proxy.MuxHttp.Buffer.Calls.{Call, closed-step, logged, step, step-Holds}
use accel_proxy.MuxHttp.Frame.{Frame}
use accel_proxy.MuxHttp.Messages.{Codec, RstMsg, data_chunk_size}
use accel_proxy.MuxHttp.Client.Storing.{unwritten}
use accel_proxy.MuxHttp.Sender.{StreamSendState, data_frame, ends, send_round, sends}
use accel_proxy.MuxHttp.Sender.Rounds.{chunk_at, round_ends, round_sends}

module _ (rst : Codec RstMsg) where
  pub calls-Flows :
      (d : Delivery) (c : Call)
      → Flows rst d
      → Flows rst (record d { buffer = step d.buffer c; log = d.log ++ logged d.buffer c })
  unfolding arrived
  calls-Flows d c v = record {
    held_log = step-Holds d.buffer d.log c v.held_log;
    recv = v.recv;
    whole = v.whole ∙ sym (take-append_le d.sender.send_offset d.log (logged d.buffer c) v.sent_in);
    counted = v.counted;
    sent_in = omega (arith, v.sent_in, length-append d.log (logged d.buffer c));
    wired = v.wired;
    not_dropped = v.not_dropped;
    ended = λ e.
        let (l, b) = v.ended e in
        let (c', n) = closed-step d.buffer c b in
        (omega (arith, l, length-append d.log (logged d.buffer c), ap length n), c');
    closed_at = v.closed_at;
  }

  pub sends_data-Flows :
      (d : Delivery) (s : StreamSendState) (f : Frame)
      → d.sending ≡ true
      → send_round rst d.buffer d.sender false true ≡ (s, sends f)
      → Flows rst d
      → Flows rst (record d { sender = s; wire = d.wire ++ (f ∷ []) })
  unfolding arrived chunk_at data_frame
  sends_data-Flows d s f r e v =
      let (p, q, l, w) = round_sends rst d.buffer d.log d.sender s f v.held_log e in
      let x = chunk_at d.log d.sender.send_offset in
      let e' : s.send_offset ≡ d.sender.send_offset + length x = ap (λ t. t.send_offset) p in
      record {
        held_log = v.held_log;
        recv = v.recv;
        whole =
            append-payloads (arrived d) (unwritten d.handling) d.wire f
            ∙ ap₂ (λ t u. t ++ u) v.whole (ap payload_of q ∙ data_frame-payload d.sender x)
            ∙ take-chunk d.sender.send_offset data_chunk_size d.log
            ∙ ap (λ k. take k d.log) (sym e');
        counted = v.counted;
        sent_in = omega (
          arith,
          e',
          l,
          length-take data_chunk_size (drop d.sender.send_offset d.log),
          length-drop d.sender.send_offset d.log,
        );
        wired = Wired-data rst d.sending d.wire f r (ap (λ t. t.frame_type) q) v.wired;
        not_dropped = v.not_dropped;
        ended = λ e. cc;
        closed_at = λ c. (let (a, b, c) = v.closed_at c in cc);
      }

  pub sends_end-Flows :
      (law : DecodesEnd rst) (d : Delivery) (s : StreamSendState) (f : Frame)
      → d.sending ≡ true
      → send_round rst d.buffer d.sender false true ≡ (s, ends f)
      → Flows rst d
      → Flows rst (record d { sender = s; sending = false; wire = d.wire ++ (f ∷ []) })
  unfolding arrived
  sends_end-Flows law d s f r e v =
      let (p, q, l, c) = round_ends rst d.buffer d.log d.sender s f v.held_log e in
      record {
        held_log = v.held_log;
        recv = v.recv;
        whole =
            append-payloads (arrived d) (unwritten d.handling) d.wire f
            ∙ ap₂ (λ t u. t ++ u) v.whole (ap payload_of q ∙ eof_frame-payload rst d.sender)
            ∙ append-nil (take d.sender.send_offset d.log)
            ∙ ap (λ t. take t.send_offset d.log) (sym p);
        counted = v.counted;
        sent_in = subst (λ t. t.send_offset ≤ length d.log) (sym p) v.sent_in;
        wired =
            Wired-end rst d.sending d.wire f r
              (subst (IsEnd rst) (sym q) (eof_frame-IsEnd rst d.sender law)) v.wired;
        not_dropped = v.not_dropped;
        ended = λ e. (subst (λ t. length d.log ≤ t.send_offset) (sym p) l, c);
        closed_at = λ c. (let (a, b, c) = v.closed_at c in cc);
      }
