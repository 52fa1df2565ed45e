-- ===== src/Mux/Frame/Sequence.antt =====
-- Many frames on one connection (`MuxConn.WriteFrame` under its lock, and `MuxConn.ReadFrame`).
use accel_proxy.Mux.Frame.RoundTrip.{read_frame-append, write_to_fits}
use accel_proxy.Common.{
  All, List, Option, [], append-nil, append_assoc, arith, drop, drop-append_self, length, none,
  refl, some, suc, sym, zero, ℕ, ◌++◌, ◌+◌, ◌-◌, ◌∷◌, ◌≡◌, ◌≤◌,
}
use accel_proxy.Wire.{Bytes, Error, Result, Writer, ok, ◌>>=◌}
use accel_proxy.Mux.Frame.{Frame, IsFrame, header, max_payload_size, read_frame, write_to}

-- Frames written one after the other, up to the first error.
pub write_frames : List Frame → Writer → Writer × Option Error
write_frames [] w = (w, none)
write_frames (f ∷ fs) w =
    let (w', e) = write_to f w in elim e [ none ↦ write_frames fs w' | some x ↦ (w', some x) ]

-- `n` frames read one after the other.
pub read_frames : ℕ → Bytes → Result (List Frame × Bytes)
read_frames zero bs = ok ([], bs)
read_frames (suc n) bs = do (f, bs) ← read_frame bs; (fs, bs) ← read_frames n bs; ok (f ∷ fs, bs)

abbrev pub IsSendable : Frame → Type 0
IsSendable f = IsFrame f × (length f.payload ≤ max_payload_size)

abbrev pub wire_bytes : List Frame → Bytes
wire_bytes [] = []
wire_bytes (f ∷ fs) = (header f ++ f.payload) ++ wire_bytes fs

abbrev pub wire_size : List Frame → ℕ
wire_size [] = 0
wire_size (f ∷ fs) = 13 + length f.payload + wire_size fs

write_frames_fit :
    (fs : List Frame) (w : Writer)
    → All IsSendable fs
    → wire_size fs ≤ w.room
    → ((write_frames fs w).0.out ≡ w.out ++ wire_bytes fs) × ((write_frames fs w).1 ≡ none)
unfolding write_frames
write_frames_fit [] w v r = (sym (append-nil w.out), refl)
write_frames_fit (f ∷ fs) w v r =
    let w' : Writer = record {
      out = w.out ++ (header f ++ f.payload);
      room = w.room - (13 + length f.payload);
    } in
    let ih = write_frames_fit fs w' v.1 (omega arith) in
    ground (
      arith,
      write_to_fits f w v.0.0 v.0.1 (omega arith),
      ih,
      append_assoc w.out (header f ++ f.payload) (wire_bytes fs),
    )

read_frames-wire_bytes :
    (fs : List Frame) (rest : Bytes)
    → All IsSendable fs
    → read_frames (length fs) (wire_bytes fs ++ rest) ≡ ok (fs, rest)
unfolding read_frames
read_frames-wire_bytes [] rest v = refl
read_frames-wire_bytes (f ∷ fs) rest v =
    rw (append_assoc (header f ++ f.payload) (wire_bytes fs) rest) (
      rw (append_assoc (header f) f.payload (wire_bytes fs ++ rest)) (
        rw (read_frame-append f (wire_bytes fs ++ rest) v.0.0 v.0.1)
          (rw (read_frames-wire_bytes fs rest v.1))))

-- Any sequence of frames within the payload limit, written to a connection that has room, is
-- written with no error and is read back whole and in order, at its own boundaries.
pub read_frames-write_frames :
    (fs : List Frame) (w : Writer) (rest : Bytes)
    → All IsSendable fs
    → wire_size fs ≤ w.room
    → ((write_frames fs w).1 ≡ none)
      × (read_frames (length fs) (drop (length w.out) (write_frames fs w).0.out ++ rest)
          ≡ ok (fs, rest))
read_frames-write_frames fs w rest v r =
    let (o, e) = write_frames_fit fs w v r in
    (
      e,
      rw (o, drop-append_self w.out (wire_bytes fs) (length w.out) refl)
          (read_frames-wire_bytes fs rest v),
    )
