-- ===== src/MuxHttp/Frame/RoundTrip.antt =====
-- Frames of the push multiplexer survive the wire.
use accel_proxy.Common.{
  [], append-nil, append_assoc, arith, drop, drop-append_self, get_or, length, length-zero, none,
  refl, sym, ℕ, ◌++◌, ◌+◌, ◌-◌, ◌∷◌, ◌≡◌, ◌≤◌,
}
use accel_proxy.Wire.{Bytes, Writer, ok, put_uint32, uint32}
use accel_proxy.Wire.Streams.{read_full-append, write_fits}
use accel_proxy.MuxHttp.Frame.{
  Frame, IsFrame, header, max_payload_size, read_frame, read_payload, write_to,
}

header_fields :
    (f : Frame)
    → IsFrame f
    → length f.payload ≤ max_payload_size
    → (length (header f) ≡ 9)
      × (uint32 (header f) 0 ≡ f.stream_id)
      × (get_or (header f) 4 0 ≡ f.frame_type)
      × (uint32 (header f) 5 ≡ length f.payload)
unfolding header uint32 put_uint32
header_fields f v h =
    (omega arith, omega (arith, v.stream_id_fits), omega (arith, v.frame_type_fits), omega arith)

read_payload-append :
    (xs ys : Bytes) (n : ℕ) → n ≡ length xs → read_payload n (xs ++ ys) ≡ ok (xs, ys)
unfolding read_payload
read_payload-append [] ys n e = ground arith
read_payload-append (x ∷ xs) ys n e = ground (arith, read_full-append (x ∷ xs) ys n e)

read_frame-append :
    (f : Frame) (rest : Bytes)
    → IsFrame f
    → length f.payload ≤ max_payload_size
    → read_frame (header f ++ (f.payload ++ rest)) ≡ ok (f, rest)
unfolding read_frame
read_frame-append f rest v h =
    let (n, s, t, l) = header_fields f v h in
    rw (read_full-append (header f) (f.payload ++ rest) 9 (sym n)) (
      rw (l, s, t) (rw (read_payload-append f.payload rest (length f.payload) refl) (ground arith)))

write_to_fits :
    (f : Frame) (w : Writer)
    → IsFrame f
    → length f.payload ≤ max_payload_size
    → 9 + length f.payload ≤ w.room
    → ((write_to f w).0.out ≡ w.out ++ (header f ++ f.payload)) × ((write_to f w).1 ≡ none)
unfolding write_to
write_to_fits f w v h r = ground (
  arith,
  (header_fields f v h).0,
  write_fits w (header f),
  write_fits (record { out = w.out ++ header f; room = w.room - 9 }) f.payload,
  append_assoc w.out (header f) f.payload,
  append-nil (header f),
  length-zero f.payload,
)

-- A frame whose payload is within the limit, written to a connection that has room, is written
-- without an error and read back as it was, and the bytes that follow it are left to read.
pub read_frame-write_to_http :
    (f : Frame) (w : Writer) (rest : Bytes)
    → IsFrame f
    → length f.payload ≤ max_payload_size
    → 9 + length f.payload ≤ w.room
    → ((write_to f w).1 ≡ none)
      × (read_frame (drop (length w.out) (write_to f w).0.out ++ rest) ≡ ok (f, rest))
read_frame-write_to_http f w rest v h r =
    let (o, e) = write_to_fits f w v h r in
    (
      e,
      rw (o, drop-append_self w.out (header f ++ f.payload) (length w.out) refl)
          (rw append_assoc (read_frame-append f rest v h)),
    )
