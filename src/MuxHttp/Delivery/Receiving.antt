-- ===== src/MuxHttp/Delivery/Receiving.antt =====
-- The invariant of a push stream across the steps of the edge.
use accel_proxy.MuxHttp.Delivery.Invariant.{
  Flows, Wired, Wired-last, Wired-next, arrived, idle-done, payload_of, payload_of-data,
  payload_of-rst, payloads,
}
use accel_proxy.MuxHttp.Delivery.{Delivery, idle}
use accel_proxy.Common.{
  Bool-cases, List, Option, [], ap, append-middle, append_assoc, ap₂, arith, bool_eq, false,
  if◌then◌else◌, inl, inr, length, length-append, nat_eq, none, pair_eq, some, string_eq, subst,
  sym, take, text_append, true, ℕ, ◌++◌, ◌+◌, ◌==◌, ◌∙◌, ◌∷◌, ◌≡◌,
}
use accel_proxy.MuxHttp.Client.{done, receive_data, receive_rst, writing}
use accel_proxy.MuxHttp.Frame.{Frame}
use accel_proxy.MuxHttp.Messages.{AckMsg, Codec, RstMsg, type_data, type_rst}
use accel_proxy.MuxHttp.Receive.Passing.{bytes_read, close-waiting, read-waiting, read_closed}
use accel_proxy.Wire.{Bytes}
use accel_proxy.MuxHttp.Client.Storing.{Stores, in_hand, receive_data-Stores, unwritten}
use accel_proxy.MuxHttp.Receive.{read as recv_read, RecvError, closed_with}
use accel_proxy.Common.Int.{int_eq}
use accel_proxy.MuxHttp.Receive.Contents.{waiting}

module _ (ack : Codec AckMsg) (rst : Codec RstMsg) where
  pub receives-Flows :
      (d : Delivery) (f : Frame) (rest : List Frame)
      → idle d.handling ≡ true
      → d.wire ≡ f ∷ rest
      → f.frame_type ≡ type_data
      → Flows rst d
      → Flows rst (record d { wire = rest; handling = writing f.payload (length f.payload) })
  unfolding arrived payloads unwritten in_hand idle
  receives-Flows d f rest i e t v = record {
    held_log = v.held_log;
    recv = v.recv;
    whole = ap (λ x. arrived d ++ (x ++ payloads rest)) (sym (payload_of-data f t)) ∙ whole_at;
    counted = omega (arith, v.counted, ap length unwritten_none, ap in_hand h);
    sent_in = v.sent_in;
    wired = Wired-next rst d.sending f rest t (subst (Wired rst d.sending) e v.wired);
    not_dropped = λ t. cc;
    ended = v.ended;
    closed_at = λ c. (let (x, y, z) = v.closed_at c in cc);
  }
    where
      h : d.handling ≡ done
      h = idle-done d.handling i v.not_dropped

      unwritten_none : unwritten d.handling ≡ []
      unwritten_none = ap unwritten h

      whole_at : arrived d ++ (payload_of f ++ payloads rest) ≡ take d.sender.send_offset d.log
      whole_at = ap₂ (λ x y. arrived d ++ (x ++ payloads y)) (sym unwritten_none) (sym e) ∙ v.whole

  pub writes-Flows :
      (d : Delivery) (left : Bytes) (len : ℕ)
      → d.handling ≡ writing left len
      → Flows rst d
      → Flows rst (record d {
        receiver = (receive_data ack true d.receiver left len).0;
        handling = (receive_data ack true d.receiver left len).1;
        acks = d.acks ++ (receive_data ack true d.receiver left len).2;
      })
  unfolding arrived unwritten in_hand idle Stores
  writes-Flows d left len h v =
      let (st', how, frames) = receive_data ack true d.receiver left len in
      let (w, c, s, n, k) = receive_data-Stores ack true d.receiver left len v.recv opened in
      record {
        held_log = v.held_log;
        recv = w;
        whole =
            append-middle d.taken (waiting st'.buf) (unwritten how) (waiting d.receiver.buf) left
              (payloads d.wire) s
            ∙ ap (λ x. arrived d ++ (unwritten x ++ payloads d.wire)) (sym h)
            ∙ v.whole;
        counted = omega (
          arith,
          n,
          v.counted,
          ap length s,
          ap (λ x. length (unwritten x)) h,
          ap in_hand h,
          length-append d.taken (waiting st'.buf),
          length-append d.taken (waiting d.receiver.buf),
          length-append (waiting st'.buf) (unwritten how),
          length-append (waiting d.receiver.buf) left,
        );
        sent_in = v.sent_in;
        wired = v.wired;
        not_dropped = k;
        ended = v.ended;
        closed_at = λ t. cc;
      }
    where
      opened : d.receiver.buf.closed ≡ false
      opened = elim (Bool-cases d.receiver.buf.closed) [
        | inl c ↦ (let (x, y, z) = v.closed_at c in let i = ap idle h in cc)
        | inr c ↦ c
      ]

  pub resets-Flows :
      (d : Delivery) (f : Frame) (rest : List Frame) (msg : RstMsg)
      → idle d.handling ≡ true
      → d.wire ≡ f ∷ rest
      → f.frame_type ≡ type_rst
      → Flows rst d
      → Flows rst (record d { wire = rest; receiver = receive_rst d.receiver msg })
  unfolding arrived payloads receive_rst Wired
  resets-Flows d f rest msg i e t v =
      let (x, y, z) = Wired-last rst d.sending f rest t (subst (Wired rst d.sending) e v.wired) in
      let (same, w) = close-waiting d.receiver.buf why v.recv in
      record {
        held_log = v.held_log;
        recv = w;
        whole =
            ap₂ (λ a b. (d.taken ++ a) ++ (unwritten d.handling ++ b)) same
              (ap (λ a. a ++ payloads rest) (sym (payload_of-rst f t)) ∙ ap payloads (sym e))
            ∙ v.whole;
        counted = ap (λ a. length (d.taken ++ a) + length (unwritten d.handling)) same ∙ v.counted;
        sent_in = v.sent_in;
        wired = subst (Wired rst d.sending) (sym y) no_frames;
        not_dropped = v.not_dropped;
        ended = v.ended;
        closed_at = λ c. (z, y, i);
      }
    where
      why : Option RecvError
      why =
          if msg.reason == "EOF"
          then none
          else some (closed_with (text_append "server RST: " msg.reason))

      no_frames : Wired rst d.sending []
      no_frames = tt

  pub reads-Flows :
      (d : Delivery) (n : ℕ)
      → Flows rst d
      → Flows rst (record d {
        receiver = record (d.receiver) { buf = (recv_read d.receiver.buf n).0 };
        taken = d.taken ++ bytes_read (recv_read d.receiver.buf n).1;
      })
  unfolding arrived
  reads-Flows d n v =
      let (same, w) = read-waiting d.receiver.buf n v.recv in
      let e : arrived (record d {
        receiver = record (d.receiver) { buf = (recv_read d.receiver.buf n).0 };
        taken = d.taken ++ bytes_read (recv_read d.receiver.buf n).1;
      })
          ≡ arrived d =
        append_assoc d.taken (bytes_read (recv_read d.receiver.buf n).1)
          (waiting (recv_read d.receiver.buf n).0)
        ∙ ap (λ t. d.taken ++ t) (sym same) in
      record {
        held_log = v.held_log;
        recv = w;
        whole = ap (λ t. t ++ (unwritten d.handling ++ payloads d.wire)) e ∙ v.whole;
        counted = ap (λ t. length t + length (unwritten d.handling)) e ∙ v.counted;
        sent_in = v.sent_in;
        wired = v.wired;
        not_dropped = v.not_dropped;
        ended = v.ended;
        closed_at = λ c. v.closed_at (sym (read_closed d.receiver.buf n) ∙ c);
      }
