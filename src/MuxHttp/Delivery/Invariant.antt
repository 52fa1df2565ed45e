-- ===== src/MuxHttp/Delivery/Invariant.antt =====
-- What holds of a push stream at every moment: the bytes at the edge and those under way to it are
-- a prefix of the log.
use accel_proxy.MuxHttp.Delivery.{Delivery, idle}
use accel_proxy.Common.Int.{int_eq}
use accel_proxy.Common.{
  Bool, List, [], ap, append-nil, append_assoc, arith, bool_eq, false, if◌then◌else◌, inl, inr,
  length, nat_beq, nat_eq, pair_eq, refl, some, string_eq, sym, take, true, ℕ, ◌++◌, ◌+◌, ◌==◌, ◌∙◌,
  ◌∷◌, ◌≡◌, ◌≢◌, ◌≤◌, ◌⊎◌,
}
use accel_proxy.MuxHttp.Client.{Handling, done, dropped, writing}
use accel_proxy.MuxHttp.Receive.Contents.{IsRecv, waiting}
use accel_proxy.MuxHttp.Buffer.Calls.{Holds}
use accel_proxy.MuxHttp.Frame.{Frame}
use accel_proxy.MuxHttp.Messages.{Codec, RstMsg, type_data, type_rst}
use accel_proxy.Wire.{Bytes}
use accel_proxy.MuxHttp.Client.Storing.{in_hand, unwritten}
use accel_proxy.MuxHttp.Sender.{StreamSendState, data_frame, eof_frame}

unfoldable pub payload_of : Frame → Bytes
payload_of f = if nat_beq f.frame_type type_data then f.payload else []

unfoldable pub payloads : List Frame → Bytes
payloads [] = []
payloads (f ∷ fs) = payload_of f ++ payloads fs

-- All the bytes of the stream that have come to the edge's buffer.
unfoldable pub arrived : Delivery → Bytes
arrived d = d.taken ++ waiting d.receiver.buf

-- The frame that ends the stream.
pub record IsEnd (rst : Codec RstMsg) (f : Frame) : Type 0 where
  pub is_rst : f.frame_type ≡ type_rst
  pub says_eof : (msg : RstMsg) → rst.unmarshal f.payload ≡ some msg → (msg.reason == "EOF") ≡ true

-- DATA frames, and after them the RST frame, if the sender has returned.
unfoldable pub Wired : Codec RstMsg → Bool → List Frame → Type 0
Wired rst sending [] = Unit
Wired rst sending (f ∷ fs) =
    ((f.frame_type ≡ type_data) × Wired rst sending fs)
    ⊎ (IsEnd rst f × (fs ≡ []) × (sending ≡ false))

pub record Flows (rst : Codec RstMsg) (d : Delivery) : Type 0 where
  pub held_log : Holds d.buffer d.log
  pub recv : IsRecv d.receiver.buf
  pub whole :
      arrived d ++ (unwritten d.handling ++ payloads d.wire) ≡ take d.sender.send_offset d.log
  pub counted :
      length (arrived d) + length (unwritten d.handling)
      ≡ d.receiver.recv_offset + in_hand d.handling
  pub sent_in : d.sender.send_offset ≤ length d.log
  pub wired : Wired rst d.sending d.wire
  pub not_dropped : d.handling ≢ dropped
  pub ended : d.sending ≡ false → (length d.log ≤ d.sender.send_offset) × (d.buffer.closed ≡ true)
  pub closed_at :
      d.receiver.buf.closed ≡ true → (d.sending ≡ false) × (d.wire ≡ []) × (idle d.handling ≡ true)

pub payloads-append : (fs gs : List Frame) → payloads (fs ++ gs) ≡ payloads fs ++ payloads gs
unfolding payloads
payloads-append [] gs = refl
payloads-append (f ∷ fs) gs =
    ap (λ t. payload_of f ++ t) (payloads-append fs gs)
    ∙ sym (append_assoc (payload_of f) (payloads fs) (payloads gs))

-- One frame more on the wire.
pub append-payloads :
    (a u : Bytes) (w : List Frame) (f : Frame)
    → a ++ (u ++ payloads (w ++ (f ∷ []))) ≡ (a ++ (u ++ payloads w)) ++ payload_of f
unfolding payloads
append-payloads a u w f =
    ap (λ t. a ++ (u ++ t)) (payloads-append w (f ∷ []) ∙ ap (λ t. payloads w ++ t) last)
    ∙ ap (λ t. a ++ t) (sym (append_assoc u (payloads w) (payload_of f)))
    ∙ sym (append_assoc a (u ++ payloads w) (payload_of f))
  where
    last : payloads (f ∷ []) ≡ payload_of f
    last = append-nil (payload_of f)

pub data_frame-payload : (s : StreamSendState) (x : Bytes) → payload_of (data_frame s x) ≡ x
unfolding payload_of data_frame
data_frame-payload s x = refl

pub eof_frame-payload :
    (rst : Codec RstMsg) (s : StreamSendState) → payload_of (eof_frame rst s) ≡ []
unfolding payload_of eof_frame
eof_frame-payload rst s = refl

-- `encoding/json` gives back the message that ends a stream.
unfoldable pub DecodesEnd : Codec RstMsg → Type 0
DecodesEnd rst =
    (id : ℕ)
    → let msg : RstMsg = record { stream_id = id; reason = "EOF" } in
      rst.unmarshal (rst.marshal msg) ≡ some msg

pub eof_frame-IsEnd :
    (rst : Codec RstMsg) (s : StreamSendState) → DecodesEnd rst → IsEnd rst (eof_frame rst s)
unfolding eof_frame DecodesEnd
eof_frame-IsEnd rst s law = record {
  is_rst = refl;
  says_eof = λ msg e. let h : msg.reason ≡ "EOF" = ground (arith, e, law s.entry.id) in rw h refl;
}

module _ (rst : Codec RstMsg) where
  pub Wired-data :
      (b : Bool) (fs : List Frame) (f : Frame)
      → b ≡ true
      → f.frame_type ≡ type_data
      → Wired rst b fs
      → Wired rst b (fs ++ (f ∷ []))
  unfolding Wired
  Wired-data b [] f r e w = inl (e, tt)
  Wired-data b (g ∷ fs) f r e (inl (h, w)) = inl (h, Wired-data b fs f r e w)
  Wired-data b (g ∷ fs) f r e (inr (h, k, t)) = cc

  pub Wired-end :
      (b : Bool) (fs : List Frame) (f : Frame)
      → b ≡ true
      → IsEnd rst f
      → Wired rst b fs
      → Wired rst false (fs ++ (f ∷ []))
  unfolding Wired
  Wired-end b [] f r e w = inr (e, refl, refl)
  Wired-end b (g ∷ fs) f r e (inl (h, w)) = inl (h, Wired-end b fs f r e w)
  Wired-end b (g ∷ fs) f r e (inr (h, k, t)) = cc

  pub Wired-next :
      (b : Bool) (f : Frame) (fs : List Frame)
      → f.frame_type ≡ type_data
      → Wired rst b (f ∷ fs)
      → Wired rst b fs
  unfolding Wired
  Wired-next b f fs e (inl (h, w)) = w
  Wired-next b f fs e (inr (h, k, t)) = absurd (omega (arith, e, h.is_rst))

  pub Wired-last :
      (b : Bool) (f : Frame) (fs : List Frame)
      → f.frame_type ≡ type_rst
      → Wired rst b (f ∷ fs)
      → IsEnd rst f × (fs ≡ []) × (b ≡ false)
  unfolding Wired
  Wired-last b f fs e (inl (h, w)) = absurd (omega (arith, e, h))
  Wired-last b f fs e (inr t) = t

pub payload_of-data : (f : Frame) → f.frame_type ≡ type_data → payload_of f ≡ f.payload
unfolding payload_of
payload_of-data f e = ground arith

pub payload_of-rst : (f : Frame) → f.frame_type ≡ type_rst → payload_of f ≡ []
unfolding payload_of
payload_of-rst f e = ground arith

pub idle-done : (h : Handling) → idle h ≡ true → h ≢ dropped → h ≡ done
unfolding idle
idle-done (writing rest len) e n = cc
idle-done dropped e n = absurd (n refl)
idle-done done e n = refl
