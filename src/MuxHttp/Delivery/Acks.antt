-- ===== src/MuxHttp/Delivery/Acks.antt =====
-- The offsets of a push stream on its two sides, and the ACK frames between them.
use accel_proxy.Common.{
  List, Option, [], ap, append-nil, arith, if◌then◌else◌, inl, inr, leb, none, refl, some, subst,
  sym, true, ℕ, ◌*◌, ◌++◌, ◌+◌, ◌<◌, ◌∙◌, ◌∷◌, ◌≡◌, ◌≤◌,
}
use accel_proxy.MuxHttp.Frame.{Frame}
use accel_proxy.MuxHttp.Messages.{AckMsg, Codec, data_chunk_size}
use accel_proxy.MuxHttp.Sender.{
  StreamSendState, default_send_window, inflight, new_stream_send_state, start_sender, update_ack,
}
use accel_proxy.Common.Int.{ltz}
use accel_proxy.MuxHttp.Client.{StreamRecvState, ack_frame}
use accel_proxy.MuxHttp.Client.Storing.{Counts}
use accel_proxy.MuxHttp.Sender.Rounds.{send_offset-update_ack, window-update_ack}
use accel_proxy.MuxHttp.Registry.{StreamEntry}

-- The acknowledged offset after an acknowledgement.
unfoldable pub ack_up : ℕ → ℕ → ℕ
ack_up acked offset = if leb offset acked then acked else offset

unfoldable pub ack_message : ℕ → Option AckMsg → ℕ
ack_message acked none = acked
ack_message acked (some msg) = ack_up acked msg.offset

-- The acknowledged offset when all the ACK frames under way have come.
unfoldable pub caught_up : Codec AckMsg → ℕ → List Frame → ℕ
caught_up ack acked [] = acked
caught_up ack acked (f ∷ fs) = caught_up ack (ack_message acked (ack.unmarshal f.payload)) fs

acked_offset-update_ack :
    (s : StreamSendState) (offset : ℕ)
    → (update_ack s offset).acked_offset ≡ ack_up s.acked_offset offset
unfolding update_ack ack_up
acked_offset-update_ack s offset = ground arith

caught_up-append :
    (ack : Codec AckMsg) (acked : ℕ) (fs : List Frame) (f : Frame)
    → caught_up ack acked (fs ++ (f ∷ []))
      ≡ ack_message (caught_up ack acked fs) (ack.unmarshal f.payload)
unfolding caught_up
caught_up-append ack acked [] f = refl
caught_up-append ack acked (g ∷ fs) f =
    caught_up-append ack (ack_message acked (ack.unmarshal g.payload)) fs f

ack_up_le : (a o : ℕ) → (a ≤ ack_up a o) × (o ≤ ack_up a o)
unfolding ack_up
ack_up_le a o = ground arith

ack_up_in : (a o n : ℕ) → a ≤ n → o ≤ n → ack_up a o ≤ n
unfolding ack_up
ack_up_in a o n p q = ground arith

-- `encoding/json` gives back an acknowledgement.
unfoldable pub DecodesAck : Codec AckMsg → Type 0
DecodesAck ack = (msg : AckMsg) → ack.unmarshal (ack.marshal msg) ≡ some msg

ack_message_le : (acked : ℕ) (o : Option AckMsg) → acked ≤ ack_message acked o
unfolding ack_message
ack_message_le acked none = omega arith
ack_message_le acked (some msg) = (ack_up_le acked msg.offset).0

pub caught_up_le :
    (ack : Codec AckMsg) (acked : ℕ) (fs : List Frame) → acked ≤ caught_up ack acked fs
unfolding caught_up
caught_up_le ack acked [] = omega arith
caught_up_le ack acked (f ∷ fs) =
    let a = ack_message acked (ack.unmarshal f.payload) in
    omega (arith, ack_message_le acked (ack.unmarshal f.payload), caught_up_le ack a fs)

-- The offsets of the two sides, with the ACK frames between them: `recv` bytes are received, and the
-- last acknowledgement sent is of `acked`.
pub record Acked (ack : Codec AckMsg) (s : StreamSendState) (acks : List Frame) (recv acked : ℕ)
    : Type 0 where
  pub all_in : caught_up ack s.acked_offset acks ≤ recv
  pub latest : acked ≤ caught_up ack s.acked_offset acks
  pub window_is : s.window ≡ default_send_window
  pub bounded : s.send_offset < s.acked_offset + (8 * 1024 * 1024 + data_chunk_size)

ack_frame-payload :
    (ack : Codec AckMsg) (o : StreamRecvState)
    → DecodesAck ack
    → ack.unmarshal (ack_frame ack o).payload
      ≡ some (record { stream_id = o.id; offset = o.recv_offset })
unfolding ack_frame DecodesAck
ack_frame-payload ack o law = law (record { stream_id = o.id; offset = o.recv_offset })

module _ (ack : Codec AckMsg) (s : StreamSendState) (acks : List Frame) (recv acked : ℕ)
    (v : Acked ack s acks recv acked) where
  pub sends-Acked :
      (n : ℕ)
      → ltz (inflight s) s.window ≡ true
      → n ≤ data_chunk_size
      → Acked ack (record s { send_offset = s.send_offset + n }) acks recv acked
  unfolding inflight
  sends-Acked n w h = record {
    all_in = v.all_in;
    latest = v.latest;
    window_is = v.window_is;
    bounded = ground (arith, v.window_is, v.bounded, w, h);
  }

  pub Counts-Acked :
      (st st' : StreamRecvState) (frames : List Frame)
      → DecodesAck ack
      → st.recv_offset ≡ recv
      → st.acked_offset ≡ acked
      → Counts ack st (st', frames)
      → Acked ack s (acks ++ frames) st'.recv_offset st'.acked_offset
  unfolding Counts ack_message
  Counts-Acked st st' frames law p q (h, inl (e, k)) = record {
    all_in =
        subst (λ t. caught_up ack s.acked_offset (acks ++ t) ≤ st'.recv_offset) (sym e)
          (subst (λ t. caught_up ack s.acked_offset t ≤ st'.recv_offset) (sym (append-nil acks))
            (omega (arith, v.all_in, p, h)));
    latest =
        subst (λ t. st'.acked_offset ≤ caught_up ack s.acked_offset (acks ++ t)) (sym e)
          (subst (λ t. st'.acked_offset ≤ caught_up ack s.acked_offset t) (sym (append-nil acks))
            (omega (arith, v.latest, q, k)));
    window_is = v.window_is;
    bounded = v.bounded;
  }
  Counts-Acked st st' frames law p q (h, inr (o, e, k, l)) =
      let a = caught_up ack s.acked_offset acks in
      let same : caught_up ack s.acked_offset (acks ++ frames) ≡ ack_up a o.recv_offset =
        ap (λ t. caught_up ack s.acked_offset (acks ++ t)) e
        ∙ caught_up-append ack s.acked_offset acks (ack_frame ack o)
        ∙ ap (ack_message a) (ack_frame-payload ack o law) in
      record {
        all_in =
            omega (arith, same, k, ack_up_in a o.recv_offset st'.recv_offset room (omega arith));
        latest = omega (arith, same, k, l, ack_up_le a o.recv_offset);
        window_is = v.window_is;
        bounded = v.bounded;
      }
    where
      room : caught_up ack s.acked_offset acks ≤ st'.recv_offset
      room = omega (arith, v.all_in, p, h)

  pub acknowledges-Acked :
      (f : Frame) (rest : List Frame) (msg : AckMsg)
      → acks ≡ f ∷ rest
      → ack.unmarshal f.payload ≡ some msg
      → Acked ack (update_ack s msg.offset) rest recv acked
  unfolding caught_up ack_message
  acknowledges-Acked f rest msg e k =
      let same : caught_up ack (update_ack s msg.offset).acked_offset rest
          ≡ caught_up ack s.acked_offset acks =
        ap (λ t. caught_up ack t rest) (acked_offset-update_ack s msg.offset)
        ∙ ap (λ t. caught_up ack (ack_message s.acked_offset t) rest) (sym k)
        ∙ ap (caught_up ack s.acked_offset) (sym e) in
      record {
        all_in = omega (arith, same, v.all_in);
        latest = omega (arith, same, v.latest);
        window_is = window-update_ack s msg.offset ∙ v.window_is;
        bounded = omega (
          arith,
          v.bounded,
          send_offset-update_ack s msg.offset,
          acked_offset-update_ack s msg.offset,
          ack_up_le s.acked_offset msg.offset,
        );
      }

  pub reconnects-Acked :
      (entry : StreamEntry)
      → Acked ack (start_sender (new_stream_send_state entry) recv) [] recv acked
  unfolding start_sender new_stream_send_state caught_up
  reconnects-Acked entry = record {
    all_in = omega arith;
    latest = omega (arith, v.latest, v.all_in);
    window_is = refl;
    bounded = omega arith;
  }
