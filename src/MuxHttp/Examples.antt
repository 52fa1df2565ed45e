-- ===== src/MuxHttp/Examples.antt =====
-- The theorems about internal/mux_http at concrete inputs.
use accel_proxy.Common.{
  List, [], arith, bool_eq, drop, false, if◌then◌else◌, length, ltb, min, nat_eq, none, pair_eq,
  refl, some, string_eq, take, ℕ, ◌++◌, ◌-◌, ◌<◌, ◌∷◌, ◌≡◌, ◌≢◌, ◌≤◌,
}
use accel_proxy.Common.Int.{int_eq, pos}
use accel_proxy.Common.Dict.{lookup}
use accel_proxy.MuxHttp.Buffer.{append, new_stream_buffer, read, trim}
use accel_proxy.MuxHttp.Buffer.Calls.{Call, append_call, log_of, logged, run, step, stored_part}
use accel_proxy.MuxHttp.Buffer.Log.{read-run, read-trim}
use accel_proxy.MuxHttp.Registry.{
  StreamEntry, StreamRegistry, get, get_by_id, get_or_create, remove,
}
use accel_proxy.MuxHttp.Registry.Index.{IsRegistry, get_or_create_lem, remove_lem}
use accel_proxy.MuxHttp.Receive.{
  write as recv_write, read as recv_read, returns as recv_returns, waits as recv_waits, RecvBuffer,
}
use accel_proxy.MuxHttp.Receive.Contents.{IsRecv, as_pipe, read_lem, waiting, write_lem}
use accel_proxy.Mux.Pipe.{ensure_buf}
use accel_proxy.MuxHttp.Nodes.{NodeRegistry, register, register_lem, session_of, unregister}
use accel_proxy.MuxHttp.Frame.{Frame, read_frame, write_to}
use accel_proxy.MuxHttp.Frame.RoundTrip.{read_frame-write_to_http}
use accel_proxy.Wire.{Bytes, ok}

abbrev calls : List Call
calls = append_call (1 ∷ 2 ∷ 3 ∷ []) ∷ append_call (4 ∷ []) ∷ []

from_start : (run (new_stream_buffer (pos 10)) calls).base_offset ≤ 1
unfolding run step append new_stream_buffer
from_start = omega arith

four_logged : 1 < length (log_of (new_stream_buffer (pos 10)) calls)
unfolding log_of logged stored_part step append new_stream_buffer
four_logged = omega arith

read-run_example :
    read (run (new_stream_buffer (pos 10)) calls) 1 2
    ≡ (take 2 (drop 1 (log_of (new_stream_buffer (pos 10)) calls)), none)
read-run_example = read-run (pos 10) calls 1 2 from_start four_logged

read-trim_example :
    read (trim (run (new_stream_buffer (pos 10)) calls) 1) 1 2
    ≡ read (run (new_stream_buffer (pos 10)) calls) 1 2
read-trim_example = read-trim (pos 10) calls 1 1 2 from_start (omega arith)

abbrev empty_registry : StreamRegistry
empty_registry = record {
  streams = [];
  by_id = [];
  max_retain = pos 10;
  next_stream_id = 1;
  buffers = λ i. new_stream_buffer (pos 10);
  next_buffer = 0;
}

empty_registry-IsRegistry : IsRegistry empty_registry
unfolding get get_by_id lookup
empty_registry-IsRegistry = record { by_name = λ n e h. cc; by_number = λ i e h. cc }

get_or_create_example :
    let (r', e) = get_or_create empty_registry "s" in
    IsRegistry r' × (get r' "s" ≡ some e) × (get_by_id r' e.id ≡ some e)
get_or_create_example = get_or_create_lem empty_registry "s" empty_registry-IsRegistry (omega arith)

remove_example :
    let r = (get_or_create empty_registry "s").0 in
    IsRegistry (remove r "s")
    × (get (remove r "s") "s" ≡ none)
    × ((id : ℕ) (e : StreamEntry) → get_by_id (remove r "s") id ≡ some e → e.name ≢ "s")
remove_example =
    remove_lem (get_or_create empty_registry "s").0 "s"
      (get_or_create_lem empty_registry "s" empty_registry-IsRegistry (omega arith)).0

abbrev one_node : NodeRegistry
one_node = record { nodes = ("edge", 1) ∷ []; replaced = [] }

one_node-edge : session_of one_node "edge" ≡ some 1
unfolding session_of lookup
one_node-edge = refl

register_example :
    ((register one_node "edge" 2).replaced ≡ 1 ∷ [])
    × (session_of (unregister (register one_node "edge" 2) "edge" 1) "edge" ≡ some 2)
register_example = register_lem one_node "edge" 1 2 one_node-edge (omega arith)

abbrev a_frame : Frame
a_frame = record { stream_id = 7; frame_type = 3; payload = 5 ∷ 6 ∷ [] }

read_frame-write_to_http_example :
    ((write_to a_frame (record { out = []; room = 64 })).1 ≡ none)
    × (read_frame (drop 0 (write_to a_frame (record { out = []; room = 64 })).0.out ++ [])
        ≡ ok (a_frame, []))
read_frame-write_to_http_example =
    read_frame-write_to_http a_frame (record { out = []; room = 64 }) []
      (record { stream_id_fits = omega arith; frame_type_fits = omega arith }) (omega arith)
      (omega arith)

abbrev a_recv : RecvBuffer
a_recv = record {
  buf = 1 ∷ 2 ∷ 3 ∷ 0 ∷ [];
  head = 0;
  tail = 3;
  size = 3;
  cap = 4;
  closed = false;
  close_err = none;
}

a_recv-IsRecv : IsRecv a_recv
unfolding IsRecv as_pipe ensure_buf
a_recv-IsRecv = record {
  cap_pos = omega arith;
  head_in = omega arith;
  size_in = omega arith;
  tail_at = refl;
  storage = refl;
}

write_example :
    let k = min (length {A = ℕ} (8 ∷ 9 ∷ [])) (4 - 3) in
    let (b', o) = recv_write a_recv (8 ∷ 9 ∷ []) in
    IsRecv b'
    × (waiting b' ≡ waiting a_recv ++ take k (8 ∷ 9 ∷ []))
    × (o ≡ (
        if ltb k (length {A = ℕ} (8 ∷ 9 ∷ []))
        then recv_waits (drop k (8 ∷ 9 ∷ []))
        else recv_returns [] none))
write_example = write_lem a_recv (8 ∷ 9 ∷ []) a_recv-IsRecv refl

read_example :
    (out : Bytes) × ((recv_read a_recv 2).1 ≡ recv_returns out none)
    × (length out ≡ min 2 3)
    × (waiting a_recv ≡ out ++ waiting (recv_read a_recv 2).0)
    × IsRecv (recv_read a_recv 2).0
read_example = read_lem a_recv 2 a_recv-IsRecv (omega arith)
