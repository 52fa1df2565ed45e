-- ===== src/Mux/Frame/RoundTrip.antt =====
-- Frames survive the wire.
use accel_proxy.Common.{
  [], append-nil, append_assoc, arith, drop, drop-append_self, get_or, if◌then◌else◌, length, ltb,
  none, refl, sym, ℕ, ◌++◌, ◌+◌, ◌-◌, ◌∷◌, ◌≡◌, ◌≤◌,
}
use accel_proxy.Wire.{Bytes, Writer, ok, put_uint32, uint32, write}
use accel_proxy.Wire.Streams.{read_full-append, write_fits}
use accel_proxy.Mux.Frame.{
  Frame, IsFrame, header, max_payload_size, read_frame, read_payload, write_to,
}

read_payload-append :
    (xs ys : Bytes) (n : ℕ) → n ≡ length xs → read_payload n (xs ++ ys) ≡ ok (xs, ys)
unfolding read_payload
read_payload-append [] ys n e = ground arith
read_payload-append (x ∷ xs) ys n e = ground (arith, read_full-append (x ∷ xs) ys n e)

header_fields :
    (f : Frame)
    → IsFrame f
    → length f.payload ≤ max_payload_size
    → (length (header f) ≡ 13)
      × (uint32 (header f) 0 ≡ f.stream_id)
      × (get_or (header f) 4 0 ≡ f.frame_type)
      × (get_or (header f) 5 0 ≡ f.flags)
      × (uint32 (header f) 6 ≡ length f.payload)
unfolding header uint32 put_uint32
header_fields f v h = (
  omega arith,
  omega (arith, v.stream_id_fits),
  omega (arith, v.frame_type_fits),
  omega (arith, v.flags_fits),
  omega arith,
)

-- What reading gives for a header and a payload that fit.
pub read_frame-append :
    (f : Frame) (rest : Bytes)
    → IsFrame f
    → length f.payload ≤ max_payload_size
    → read_frame (header f ++ (f.payload ++ rest)) ≡ ok (f, rest)
unfolding read_frame
read_frame-append f rest v h =
    let (n, s, t, g, l) = header_fields f v h in
    rw (read_full-append (header f) (f.payload ++ rest) 13 (sym n)) (
      rw (l, s, t, g)
        (rw (read_payload-append f.payload rest (length f.payload) refl) (ground arith)))

write_payload :
    (w : Writer) (p : Bytes)
    → length p ≤ w.room
    → (if ltb 0 (length p) then write w p else (w, none))
      ≡ (record { out = w.out ++ p; room = w.room - length p }, none)
write_payload w [] h = ground (arith, append-nil w.out)
write_payload w (x ∷ p) h = ground (arith, write_fits w (x ∷ p) h)

-- A write that has room succeeds, and appends the header and the payload.
pub write_to_fits :
    (f : Frame) (w : Writer)
    → IsFrame f
    → length f.payload ≤ max_payload_size
    → 13 + length f.payload ≤ w.room
    → write_to f w ≡ (
      record { out = w.out ++ (header f ++ f.payload); room = w.room - (13 + length f.payload) },
      none,
    )
unfolding write_to
write_to_fits f w v h r = ground (
  arith,
  (header_fields f v h).0,
  write_fits w (header f),
  write_payload (record { out = w.out ++ header f; room = w.room - 13 }) f.payload,
  append_assoc w.out (header f) f.payload,
)

-- A frame whose payload is within the limit is read back from what `WriteTo` put on the
-- connection, and the bytes that follow it are left to read.
pub read_frame-write_to :
    (f : Frame) (w : Writer) (rest : Bytes)
    → IsFrame f
    → length f.payload ≤ max_payload_size
    → 13 + length f.payload ≤ w.room
    → read_frame (drop (length w.out) (write_to f w).0.out ++ rest) ≡ ok (f, rest)
read_frame-write_to f w rest v h r = rw (write_to_fits f w v h r) (
    rw (drop-append_self w.out (header f ++ f.payload) (length w.out) refl)
      (rw append_assoc (read_frame-append f rest v h)))
