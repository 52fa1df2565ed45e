-- ===== src/MuxHttp/Receive/Passing.antt =====
-- A `RecvBuffer` across its calls: what stays open, and what it holds.
use accel_proxy.MuxHttp.Receive.{
  Ended, RecvBuffer, RecvError, close, end_of_file, new_recv_buffer, read, reopen, returns,
  ring_write, waits, write, write_loop,
}
use accel_proxy.MuxHttp.Receive.Contents.{
  IsRecv, as_pipe, ring_read-waiting, ring_read_keeps, ring_write_keeps, waiting,
}
use native.Mathlib.Nat.{mod-eq_of_lt}
use accel_proxy.Common.{
  Bool, Option, [], arith, drop, false, if_both, if◌then◌else◌, length, length-replicate,
  length-zero, ltb, min, none, refl, some, suc, sym, take, true, zero, ℕ, ◌++◌, ◌+◌, ◌-◌, ◌<◌, ◌∷◌,
  ◌≡◌,
}
use accel_proxy.Wire.{Bytes}
use accel_proxy.Mux.Pipe.{ensure_buf}
use accel_proxy.Mux.Pipe.Contents.{contents, length-contents}

write_loop_closed :
    (fuel : ℕ) (b : RecvBuffer) (src : Bytes) → (write_loop fuel b src).0.closed ≡ b.closed
unfolding write_loop
write_loop_closed fuel b [] = refl
write_loop_closed zero b (x ∷ xs) = refl
write_loop_closed (suc fuel) b (x ∷ xs) = ground (
  arith,
  write_loop_closed fuel (ring_write b (take k (x ∷ xs))) (drop k (x ∷ xs)),
  ring_write_keeps b (take k (x ∷ xs)),
)
  where
    k : ℕ
    k = min (length (x ∷ xs)) (b.cap - b.size)

-- Neither a write nor a read closes a buffer or opens it.
pub write_closed : (b : RecvBuffer) (src : Bytes) → (write b src).0.closed ≡ b.closed
unfolding write
write_closed b src = write_loop_closed (length src) b src

pub read_closed : (b : RecvBuffer) (n : ℕ) → (read b n).0.closed ≡ b.closed
unfolding read
read_closed b n = ground (arith, ring_read_keeps b (if ltb b.size n then b.size else n))

-- The ring, whether it counts as closed or not.
same_ring :
    (b : RecvBuffer) (c : Bool) (e : Option RecvError)
    → IsRecv b
    → (waiting (record b { closed = c; close_err = e }) ≡ waiting b)
      × IsRecv (record b { closed = c; close_err = e })
unfolding waiting IsRecv as_pipe contents ensure_buf
same_ring b c e v = (
  refl,
  record {
    cap_pos = v.cap_pos;
    head_in = v.head_in;
    size_in = v.size_in;
    tail_at = v.tail_at;
    storage = v.storage;
  },
)

-- A buffer that is reopened or closed holds what it held.
pub reopen-waiting :
    (b : RecvBuffer) → IsRecv b → (waiting (reopen b) ≡ waiting b) × IsRecv (reopen b)
unfolding reopen
reopen-waiting b v =
    if_both (λ (r : RecvBuffer). (waiting r ≡ waiting b) × IsRecv r) b.closed
      {x = record b { closed = false; close_err = none }} {y = b} (λ t. same_ring b false none v)
      (λ t. (refl, v))

pub reopen_opens : (b : RecvBuffer) → (reopen b).closed ≡ false
unfolding reopen
reopen_opens b = ground arith

pub close-waiting :
    (b : RecvBuffer) (e : Option RecvError)
    → IsRecv b
    → (waiting (close b e) ≡ waiting b) × IsRecv (close b e)
unfolding close
close-waiting b e v =
    if_both (λ (r : RecvBuffer). (waiting r ≡ waiting b) × IsRecv r) b.closed {x = b}
      {y = record b { closed = true; close_err = some why }} (λ t. (refl, v))
      (λ t. same_ring b true (some why) v)
  where
    why : RecvError
    why = elim e [ none ↦ end_of_file | some x ↦ x ]

-- The bytes that a read hands over.
unfoldable pub bytes_read : Ended Bytes → Bytes
bytes_read (returns out e) = out
bytes_read (waits out) = []

-- What a read hands over is what it takes away, and nothing when no bytes wait.
pub read-waiting :
    (b : RecvBuffer) (n : ℕ)
    → IsRecv b
    → (waiting b ≡ bytes_read (read b n).1 ++ waiting (read b n).0) × IsRecv (read b n).0
unfolding read bytes_read
read-waiting b n v = ground (arith, ring_read-waiting b (if ltb b.size n then b.size else n) v)

pub new_recv_buffer_lem :
    (capacity : ℕ)
    → 0 < capacity
    → IsRecv (new_recv_buffer capacity)
      × (waiting (new_recv_buffer capacity) ≡ [])
      × ((new_recv_buffer capacity).closed ≡ false)
unfolding new_recv_buffer IsRecv waiting as_pipe ensure_buf
new_recv_buffer_lem capacity h = (
  record {
    cap_pos = h;
    head_in = h;
    size_in = omega arith;
    tail_at = sym (mod-eq_of_lt {n = 0 + 0} {m = capacity} h);
    storage = length-replicate capacity 0;
  },
  length-zero (contents (as_pipe (new_recv_buffer capacity)))
      (length-contents (as_pipe (new_recv_buffer capacity))),
  refl,
)

pub close_closes : (b : RecvBuffer) (e : Option RecvError) → (close b e).closed ≡ true
unfolding close
close_closes b e = ground arith
