-- ===== src/Mux/Stream/Reading.antt =====
-- What `WindowUpdateReader.Read` announces to the sender.
use accel_proxy.Common.{
  List, [], ap, arith, length, refl, sym, true, ℕ, ◌%◌, ◌++◌, ◌+◌, ◌<◌, ◌^◌, ◌∙◌, ◌∷◌, ◌≡◌, ◌≤◌,
}
use accel_proxy.Mux.Frame.{Frame}
use accel_proxy.Mux.Pipe.{Outcome, read, returns, waits}
use accel_proxy.Mux.Pipe.Steps.{bytes_of}
use accel_proxy.Mux.Stream.{
  WindowUpdateReader, count_read, flush, pipe_buf_size, window_read, window_update,
  window_update_batch,
}
use accel_proxy.Wire.{Bytes, uint32}
use accel_proxy.Wire.Words.{uint32-put_uint32}

-- The bytes that WINDOW_UPDATE frames hand back.
unfoldable pub updates_size : List Frame → ℕ
updates_size [] = 0
updates_size (f ∷ fs) = uint32 f.payload 0 + updates_size fs

pub updates_size-append :
    (fs gs : List Frame) → updates_size (fs ++ gs) ≡ updates_size fs + updates_size gs
unfolding updates_size
updates_size-append [] gs = omega arith
updates_size-append (f ∷ fs) gs = omega (arith, updates_size-append fs gs)

-- A flush on a live connection announces all that is pending.
flush_lem :
    (r : WindowUpdateReader)
    → 0 < r.pending_inc
    → r.pending_inc < 2 ^ 31
    → flush true r ≡ (record r { pending_inc = 0 }, window_update r ∷ [])
unfolding flush
flush_lem r p q = ground arith

uint32-window_update :
    (r : WindowUpdateReader)
    → r.pending_inc < 2 ^ 32
    → uint32 (window_update r).payload 0 ≡ r.pending_inc
unfolding window_update
uint32-window_update r h = uint32-put_uint32 r.pending_inc (r.dir % 256 ∷ []) h

-- After a read: what was pending and what was read is either still pending, and then less than a
-- batch, or announced.
count_read_lem :
    (r : WindowUpdateReader) (o : Outcome Bytes)
    → r.pending_inc < window_update_batch
    → length (bytes_of o) ≤ pipe_buf_size
    → let (r', o', fs) = count_read true r o in
      (r'.pipe ≡ r.pipe)
      × (o' ≡ o)
      × (r'.pending_inc + updates_size fs ≡ r.pending_inc + length (bytes_of o))
      × (r'.pending_inc < window_update_batch)
unfolding count_read updates_size
count_read_lem r (waits out) p q = (refl, refl, refl, p)
count_read_lem r (returns out e) p q = ground (
  arith,
  flush_lem (record r { pending_inc = (r.pending_inc + length out) % 2 ^ 32 }),
  uint32-window_update (record r { pending_inc = (r.pending_inc + length out) % 2 ^ 32 }),
)

-- A read through a `WindowUpdateReader` that has less than a batch pending, on a connection that is
-- up and with at most a pipe's capacity of bytes: it answers as the pipe does, and what was pending
-- with what was read is what is announced with what is pending after it, again less than a batch.
pub window_read_lem :
    (r : WindowUpdateReader) (n : ℕ)
    → r.pending_inc < window_update_batch
    → length (bytes_of (read r.pipe n).1) ≤ pipe_buf_size
    → let (r', o, fs) = window_read true r n in
      (r'.pipe ≡ (read r.pipe n).0)
      × (o ≡ (read r.pipe n).1)
      × (r'.pending_inc + updates_size fs ≡ r.pending_inc + length (bytes_of o))
      × (r'.pending_inc < window_update_batch)
unfolding window_read
window_read_lem r n p q =
    let (a, b, c, d) =
      count_read_lem (record r { pipe = (read r.pipe n).0 }) (read r.pipe n).1 p q in
    (a, b, c ∙ ap (λ o. r.pending_inc + length (bytes_of o)) (sym b), d)
