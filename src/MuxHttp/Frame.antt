-- ===== src/MuxHttp/Frame.antt =====
-- internal/mux_http/muxproto/frame.go: the frame with a 9-byte header, and no flags.
pub mod RoundTrip
use accel_proxy.Common.{
  Option, [], get_or, if◌then◌else◌, is_some, length, ltb, none, some, ℕ, ◌%◌, ◌*◌, ◌++◌, ◌<◌, ◌^◌,
  ◌∷◌,
}
use accel_proxy.Wire.{
  Bytes, Error, IsByte, Result, Writer, err, ok, payload_too_large, put_uint32, read_full, uint32,
  write, ◌>>=◌,
}

abbrev pub frame_header_size : ℕ
frame_header_size = 9

abbrev pub max_payload_size : ℕ
max_payload_size = 8 * 1024 * 1024

pub record Frame : Type 0 where
  pub stream_id : ℕ
  pub frame_type : ℕ
  pub payload : Bytes

pub header : Frame → Bytes
header f = put_uint32 f.stream_id ++ (f.frame_type % 256 ∷ put_uint32 (length f.payload % 2 ^ 32))

-- The writer after the call, and the error if there is one.
pub write_to : Frame → Writer → Writer × Option Error
write_to f w =
    let (w', e) = write w (header f) in
    let written =
      (if is_some e
        then (w', e)
        else if ltb 0 (length f.payload)
        then write w' f.payload
        else (w', none)) in
    if ltb max_payload_size (length f.payload)
    then (w, some (payload_too_large (length f.payload)))
    else written

-- The payload of a frame whose header says `n` bytes.
pub read_payload : ℕ → Bytes → Result (Bytes × Bytes)
read_payload n bs = if ltb 0 n then read_full n bs else ok ([], bs)

-- The frame and the bytes after it.
pub read_frame : Bytes → Result (Frame × Bytes)
read_frame bs = do
  (hdr, bs) ← read_full frame_header_size bs
  let n = uint32 hdr 5
  if ltb max_payload_size n then err (payload_too_large n) else (do
    (payload, bs) ← read_payload n bs
    ok (record { stream_id = uint32 hdr 0; frame_type = get_or hdr 4 0; payload = payload }, bs))

-- The fields of a frame fit the types that the struct gives them.
pub record IsFrame (f : Frame) : Type 0 where
  pub stream_id_fits : f.stream_id < 2 ^ 32
  pub frame_type_fits : IsByte f.frame_type
