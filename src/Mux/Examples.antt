-- ===== src/Mux/Examples.antt =====
-- The theorems about internal/mux at concrete inputs.
use accel_proxy.Mux.Flow.Invariant.{payloads}
use accel_proxy.Common.{
  All, List, [], arith, drop, false, length, none, refl, some, take, true, ◌++◌, ◌+◌, ◌<◌, ◌∷◌, ◌≡◌,
  ◌≢◌, ◌≤◌,
}
use accel_proxy.Common.Int.{pos, ℤ}
use accel_proxy.Wire.{Bytes, IsByte, Writer, ok, read_full, uint32}
use accel_proxy.Mux.Frame.{
  Frame, IsFrame, header, max_payload_size, read_frame, read_payload, type_data, type_headers,
}
use accel_proxy.Mux.Frame.Sequence.{read_frames, read_frames-write_frames, write_frames}
use accel_proxy.Mux.Frame.Parse.{read_frame_sound}
use accel_proxy.Mux.Pipe.{StreamPipe, new_stream_pipe, read}
use accel_proxy.Mux.Pipe.Steps.{bytes_of}
use accel_proxy.Mux.Pipe.Contents.{contents}
use accel_proxy.Mux.Pipe.Fifo.{
  Call, close_call, new_stream_pipe_lem, read_call, run, run_refines, spec_run, try_write_call,
  view, write_call,
}
use accel_proxy.Mux.Stream.{
  RequestMeta, ResponseMeta, WindowUpdateReader, acquire, granted, new_stream, on_data,
  pipe_buf_size, value, window_read, window_update_batch,
}
use accel_proxy.Mux.Stream.Reading.{updates_size, window_read_lem}
use accel_proxy.Mux.Flow.{Link, Reach, data_frame, here, new_link, next, sends}
use accel_proxy.Mux.Server.Responses.{arrives, asks, await_response-ne-value, serve}
use accel_proxy.Mux.Server.{Messages, await_response, new_edge_session}
use accel_proxy.Mux.Flow.Safety.{acquire-Reach, given-Reach, on_data-Reach}

abbrev start : Link
start = new_link 1

-- One chunk on the wire.
abbrev one_sent : Link
one_sent = record start {
  sender = record (start.sender) { send_window_req = pos 524287 };
  wire = data_frame 1 (7 ∷ []) 0 ∷ [];
  given = 7 ∷ [];
}

one_sent-Reach : Reach start one_sent
unfolding new_link new_stream acquire
one_sent-Reach =
    next here (sends start (7 ∷ []) (pos 524287) false refl (omega arith) (omega arith) refl)

on_data-Reach_example : (on_data one_sent.receiver (data_frame 1 (7 ∷ []) 0)).1 ≡ none
unfolding new_link
on_data-Reach_example = on_data-Reach 1 {l = one_sent} {rest = []} one_sent-Reach refl refl

given-Reach_example :
    (one_sent.given
      ≡ one_sent.taken
        ++ (contents one_sent.receiver.req_body ++ (one_sent.dropped ++ payloads one_sent.wire)))
    × (one_sent.removed ≡ false → one_sent.dropped ≡ [])
given-Reach_example = given-Reach 1 one_sent-Reach

acquire-Reach_example :
    (left : ℤ) × (acquire start.sender.send_window_req (pos 100) false false ≡ granted left)
unfolding new_link new_stream new_stream_pipe
acquire-Reach_example = acquire-Reach 1 100 here refl refl refl refl (omega arith)

abbrev small_pipe : StreamPipe
small_pipe = new_stream_pipe (pos 3)

abbrev calls : List Call
calls = write_call (1 ∷ 2 ∷ []) ∷ read_call 1 ∷ try_write_call (3 ∷ 4 ∷ []) ∷ close_call none ∷ []

run_refines_example : run small_pipe calls ≡ spec_run (view small_pipe) calls
run_refines_example = run_refines calls small_pipe (new_stream_pipe_lem (pos 3)).0

abbrev a_frame : Frame
a_frame = record { stream_id = 1; frame_type = type_data; flags = 1; payload = 5 ∷ [] }

a_frame-IsFrame : IsFrame a_frame
a_frame-IsFrame = record {
  stream_id_fits = omega arith;
  frame_type_fits = omega arith;
  flags_fits = omega arith;
  payload_bytes = (omega arith, tt);
}

abbrev a_writer : Writer
a_writer = record { out = []; room = 100 }

read_frames-write_frames_example :
    ((write_frames (a_frame ∷ []) a_writer).1 ≡ none)
    × (read_frames 1 (drop 0 (write_frames (a_frame ∷ []) a_writer).0.out ++ [])
        ≡ ok (a_frame ∷ [], []))
read_frames-write_frames_example =
    read_frames-write_frames (a_frame ∷ []) a_writer [] ((a_frame-IsFrame, omega arith), tt)
      (omega arith)

-- A frame whose reserved bytes are not zero.
abbrev odd_bytes : Bytes
odd_bytes = 0 ∷ 0 ∷ 0 ∷ 1 ∷ 33 ∷ 1 ∷ 0 ∷ 0 ∷ 0 ∷ 1 ∷ 9 ∷ 9 ∷ 9 ∷ 5 ∷ []

odd_bytes-All : All IsByte odd_bytes
odd_bytes-All = (
  omega arith,
  (
    omega arith,
    (
      omega arith,
      (
        omega arith,
        (
          omega arith,
          (
            omega arith,
            (
              omega arith,
              (
                omega arith,
                (
                  omega arith,
                  (omega arith, (omega arith, (omega arith, (omega arith, (omega arith, tt))))),
                ),
              ),
            ),
          ),
        ),
      ),
    ),
  ),
)

odd_bytes-read : read_frame odd_bytes ≡ ok (a_frame, [])
unfolding read_frame read_full read_payload uint32
odd_bytes-read = refl

read_frame_sound_example :
    IsFrame a_frame
    × (length a_frame.payload ≤ max_payload_size)
    × ((reserved : Bytes) × (length reserved ≡ 3)
        × (odd_bytes ≡ take 10 (header a_frame) ++ (reserved ++ (a_frame.payload ++ []))))
read_frame_sound_example = read_frame_sound odd_bytes [] a_frame odd_bytes-All odd_bytes-read

abbrev a_reader : WindowUpdateReader
a_reader = record { pipe = small_pipe; sid = 1; dir = 0; pending_inc = 3 }

nothing_read : length (bytes_of (read small_pipe 1).1) ≤ pipe_buf_size
unfolding new_stream_pipe read
nothing_read = omega arith

window_read_example :
    let (r', o, fs) = window_read true a_reader 1 in
    (r'.pipe ≡ (read small_pipe 1).0)
    × (o ≡ (read small_pipe 1).1)
    × (r'.pending_inc + updates_size fs ≡ 3 + length (bytes_of o))
    × (r'.pending_inc < window_update_batch)
window_read_example = window_read_lem a_reader 1 (omega arith) nothing_read

abbrev a_response : ResponseMeta
a_response = record { status_code = pos 200; headers = [] }

abbrev a_request : RequestMeta
a_request = record { method = "GET"; url = "/"; host = "h"; headers = [] }

abbrev messages : Messages
messages = record {
  json = record { request = λ b. some a_request; response = λ b. some a_response };
  rst_reason = λ b. "";
  go_away = λ n. [];
  request_meta = λ r. [];
}

await_response-ne-value_example :
    await_response
      (serve messages (new_edge_session "edge" []) (
        asks 1 a_request
        ∷ arrives (record { stream_id = 1; frame_type = type_headers; flags = 0; payload = [] })
        ∷ []))
      1
    ≢ value a_response
await_response-ne-value_example =
    await_response-ne-value messages "edge" []
      (asks 1 a_request
        ∷ arrives (record { stream_id = 1; frame_type = type_headers; flags = 0; payload = [] })
        ∷ [])
      1 a_response
