-- ===== src/MuxHttp/Receive.antt =====
-- internal/mux_http/client/buffer.go: `RecvBuffer`, between the DATA frames of a stream and the
-- local consumer. Each function is what the method does under the lock; a wait is a result.
pub mod Contents
pub mod Passing
use accel_proxy.Common.{
  Bool, Option, String, [], drop, false, if◌then◌else◌, leb, length, ltb, min, nat_beq, none, not,
  replicate, some, suc, take, true, zero, ℕ, ◌%◌, ◌&&◌, ◌++◌, ◌+◌, ◌-◌, ◌∷◌,
}
use accel_proxy.Wire.{Bytes, err}
use accel_proxy.Mux.Pipe.{copy_at}

pub data RecvError : Type 0 where
  end_of_file : RecvError
  closed_with : String → RecvError

pub record RecvBuffer : Type 0 where
  pub buf : Bytes
  pub head : ℕ
  pub tail : ℕ
  pub size : ℕ
  pub cap : ℕ
  pub closed : Bool
  pub close_err : Option RecvError

pub new_recv_buffer : ℕ → RecvBuffer
new_recv_buffer capacity = record {
  buf = replicate capacity 0;
  head = 0;
  tail = 0;
  size = 0;
  cap = capacity;
  closed = false;
  close_err = none;
}

pub ring_write : RecvBuffer → Bytes → RecvBuffer
ring_write b src =
    let n = length src in
    let first = b.cap - b.tail in
    record b {
      buf =
          (if leb n first
            then copy_at b.buf b.tail src
            else copy_at (copy_at b.buf b.tail (take first src)) 0 (drop first src));
      tail = (b.tail + n) % b.cap;
      size = b.size + n;
    }

-- What `ringRead` puts into a destination of `n` bytes, and the buffer after it.
pub ring_read : RecvBuffer → ℕ → Bytes × RecvBuffer
ring_read b n =
    let first = b.cap - b.head in
    (
      if leb n first
          then take n (drop b.head b.buf)
          else take first (drop b.head b.buf) ++ take (n - first) b.buf,
      record b { head = (b.head + n) % b.cap; size = b.size - n },
    )

-- How a call ends.
pub data Ended {ℓ} (A : Type ℓ) : Type ℓ where
  returns : A → Option RecvError → Ended A
  waits : A → Ended A

-- The loop of `Write`, without a cancellation, from the bytes still to be written; they are what is
-- left when it waits.
pub write_loop : ℕ → RecvBuffer → Bytes → RecvBuffer × Ended Bytes
write_loop fuel b [] = (b, returns [] none)
write_loop zero b (x ∷ xs) = (b, waits (x ∷ xs))
write_loop (suc fuel) b (x ∷ xs) =
    let chunk = min (length (x ∷ xs)) (b.cap - b.size) in
    let more = write_loop fuel (ring_write b (take chunk (x ∷ xs))) (drop chunk (x ∷ xs)) in
    if nat_beq b.size b.cap && not b.closed
    then (b, waits (x ∷ xs))
    else if b.closed
    then (b, returns (x ∷ xs) b.close_err)
    else more

-- Each round writes a byte at least, so as many rounds as bytes are enough.
pub write : RecvBuffer → Bytes → RecvBuffer × Ended Bytes
write b src = write_loop (length src) b src

-- `Read` into a destination of `n` bytes.
pub read : RecvBuffer → ℕ → RecvBuffer × Ended Bytes
read b n =
    let (out, b') = ring_read b (if ltb b.size n then b.size else n) in
    if nat_beq b.size 0
    then (b, if b.closed then returns [] b.close_err else waits [])
    else (b', returns out none)

pub close : RecvBuffer → Option RecvError → RecvBuffer
close b e =
    let err : RecvError = elim e [ none ↦ end_of_file | some x ↦ x ] in
    if b.closed then b else record b { closed = true; close_err = some err }

pub reopen : RecvBuffer → RecvBuffer
reopen b = if b.closed then record b { closed = false; close_err = none } else b
