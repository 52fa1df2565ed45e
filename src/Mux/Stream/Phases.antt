-- ===== src/Mux/Stream/Phases.antt =====
-- A stream never leaves the request phase: `end_stream` stores the phase that `toInt32` gives,
-- and that is the request phase whatever phase it is asked for.
use accel_proxy.Common.{arith, none, refl, ℕ, ◌≡◌}
use accel_proxy.Wire.{Bytes}
use accel_proxy.Mux.Frame.{Frame}
use accel_proxy.Mux.Pipe.{new_stream_pipe}
use accel_proxy.Mux.Stream.{
  Json, Stream, new_stream, on_data, on_headers, on_window_update, phase_request,
}

-- A stream that has seen nothing of a response.
pub record AwaitsResponse (s : Stream) : Type 0 where
  pub in_request : s.phase ≡ phase_request
  pub no_headers : s.resp_headers ≡ none
  pub no_body : s.resp_body.size ≡ 0

pub new_stream-AwaitsResponse : (id : ℕ) → AwaitsResponse (new_stream id)
unfolding new_stream new_stream_pipe
new_stream-AwaitsResponse id = record { in_request = refl; no_headers = refl; no_body = refl }

pub on_headers-AwaitsResponse :
    (json : Json) (s : Stream) (f : Frame)
    → AwaitsResponse s
    → AwaitsResponse (on_headers json s f).0
unfolding on_headers
on_headers-AwaitsResponse json s f v = ground arith

pub on_data-AwaitsResponse :
    (s : Stream) (f : Frame) → AwaitsResponse s → AwaitsResponse (on_data s f).0
unfolding on_data
on_data-AwaitsResponse s f v = ground arith

pub on_window_update-AwaitsResponse :
    (s : Stream) (payload : Bytes) → AwaitsResponse s → AwaitsResponse (on_window_update s payload)
unfolding on_window_update
on_window_update-AwaitsResponse s payload v = ground arith
