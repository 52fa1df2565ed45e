-- ===== src/Mux/Frame/Limits.antt =====
-- The payload limit on both sides of the wire.
use accel_proxy.Common.{arith, length, some, sym, ◌++◌, ◌<◌, ◌≡◌}
use accel_proxy.Wire.{Bytes, Writer, err, payload_too_large, uint32}
use accel_proxy.Wire.Streams.{read_full-append}
use accel_proxy.Mux.Frame.{Frame, max_payload_size, read_frame, write_to}

-- `WriteTo` refuses a payload above the limit before it writes a byte; and `ReadFrame` refuses a
-- header that announces one, whatever follows the header and whatever else the header says.
pub too_large :
    (f : Frame) (w : Writer) (hdr rest : Bytes)
    → max_payload_size < length f.payload
    → length hdr ≡ 13
    → max_payload_size < uint32 hdr 6
    → (write_to f w ≡ (w, some (payload_too_large (length f.payload))))
      × (read_frame (hdr ++ rest) ≡ err (payload_too_large (uint32 hdr 6)))
unfolding write_to read_frame
too_large f w hdr rest h n k =
    (ground arith, rw (read_full-append hdr rest 13 (sym n)) (ground arith))
