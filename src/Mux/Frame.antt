-- ===== src/Mux/Frame.antt =====
-- internal/mux/muxproto/frame.go: the frame with a 13-byte header.
pub mod RoundTrip
pub mod Limits
pub mod Sequence
pub mod Parse
use accel_proxy.Common.{
  All, Bool, Option, [], get_or, if◌then◌else◌, length, ltb, none, some, ℕ, ◌%◌, ◌*◌, ◌++◌, ◌<◌,
  ◌^◌, ◌∷◌,
}
use accel_proxy.Wire.{
  Bytes, Error, IsByte, Result, Writer, err, ok, payload_too_large, put_uint32, read_full, uint32,
  write, ◌>>=◌,
}

abbrev pub frame_header_size : ℕ
frame_header_size = 13

abbrev pub max_payload_size : ℕ
max_payload_size = 8 * 1024 * 1024

abbrev pub data_chunk_size : ℕ
data_chunk_size = 32 * 1024

abbrev pub control_stream_id : ℕ
control_stream_id = 0

-- The values of `FrameType`.
abbrev pub type_register : ℕ
type_register = 0x01

abbrev pub type_register_ack : ℕ
type_register_ack = 0x02

abbrev pub type_ping : ℕ
type_ping = 0x07

abbrev pub type_pong : ℕ
type_pong = 0x08

abbrev pub type_go_away : ℕ
type_go_away = 0x09

abbrev pub type_push_data : ℕ
type_push_data = 0x10

abbrev pub type_push_ack : ℕ
type_push_ack = 0x11

abbrev pub type_push_rst : ℕ
type_push_rst = 0x12

abbrev pub type_headers : ℕ
type_headers = 0x20

abbrev pub type_data : ℕ
type_data = 0x21

abbrev pub type_rst : ℕ
type_rst = 0x22

abbrev pub type_window_update : ℕ
type_window_update = 0x30

abbrev pub flag_end_stream : ℕ
flag_end_stream = 0x01

pub record Frame : Type 0 where
  pub stream_id : ℕ
  pub frame_type : ℕ
  pub flags : ℕ
  pub payload : Bytes

-- `Flags.Has` for the one flag there is: `f & 0x01 != 0`
unfoldable pub has_end_stream : Frame → Bool
has_end_stream f = ltb 0 (f.flags % 2)

-- `var hdr [FrameHeaderSize]byte`, filled in; the three reserved bytes stay 0.
pub header : Frame → Bytes
header f =
    put_uint32 f.stream_id
    ++ (f.frame_type % 256
        ∷ f.flags % 256
        ∷ (put_uint32 (length f.payload % 2 ^ 32) ++ (0 ∷ 0 ∷ 0 ∷ [])))

-- The writer after the call, and the error if there is one.
pub write_to : Frame → Writer → Writer × Option Error
write_to f w =
    if ltb max_payload_size (length f.payload)
    then (w, some (payload_too_large (length f.payload)))
    else (let (w', e) = write w (header f) in
        elim e [
          | some x ↦ (w', some x)
          | none ↦ if ltb 0 (length f.payload) then write w' f.payload else (w', none)
        ])

-- The payload of a frame whose header says `n` bytes.
unfoldable pub read_payload : ℕ → Bytes → Result (Bytes × Bytes)
read_payload n bs = if ltb 0 n then read_full n bs else ok ([], bs)

-- The frame and the bytes after it.
unfoldable pub read_frame : Bytes → Result (Frame × Bytes)
read_frame bs = do
  (hdr, bs) ← read_full frame_header_size bs
  let n = uint32 hdr 6
  if ltb max_payload_size n then err (payload_too_large n) else (do
    (payload, bs) ← read_payload n bs
    ok (
      record {
        stream_id = uint32 hdr 0;
        frame_type = get_or hdr 4 0;
        flags = get_or hdr 5 0;
        payload = payload;
      },
      bs,
    ))

-- The fields of a frame fit the types that the struct gives them.
pub record IsFrame (f : Frame) : Type 0 where
  pub stream_id_fits : f.stream_id < 2 ^ 32
  pub frame_type_fits : IsByte f.frame_type
  pub flags_fits : IsByte f.flags
  pub payload_bytes : All IsByte f.payload
