-- ===== src/Mux/Pipe.antt =====
-- internal/mux/muxproto/pipe.go: `StreamPipe`, a bounded byte pipe over a ring buffer. Each
-- function is what the method does under the lock; where it would wait on a condition variable
-- the result says so.
pub mod Ring
pub mod Contents
pub mod Fifo
pub mod Steps
use accel_proxy.Common.{
  Bool, Option, String, [], drop, false, if◌then◌else◌, leb, length, ltb, min, nat_beq, none,
  replicate, set, some, suc, take, true, zero, ℕ, ◌%◌, ◌*◌, ◌++◌, ◌+◌, ◌-◌, ◌<◌, ◌∷◌, ◌≡◌, ◌≤◌,
}
use accel_proxy.Common.Int.{negsuc, pos, ℤ}
use accel_proxy.Wire.{Bytes}

-- The errors that a pipe returns, or is closed with.
pub data PipeError : Type 0 where
  end_of_file closed_pipe pipe_full : PipeError
  stream_reset : String → PipeError

pub record StreamPipe : Type 0 where
  pub buf : Option Bytes
  pub head : ℕ
  pub tail : ℕ
  pub size : ℕ
  pub cap : ℕ
  pub closed : Bool
  pub close_err : Option PipeError

-- `capacity` is an `int`: anything not above 0 gives the default.
pub capacity_of : ℤ → ℕ
capacity_of (pos n) = if nat_beq n 0 then 256 * 1024 else n
capacity_of (negsuc n) = 256 * 1024

unfoldable pub new_stream_pipe : ℤ → StreamPipe
unfolding capacity_of
new_stream_pipe capacity = record {
  buf = none;
  head = 0;
  tail = 0;
  size = 0;
  cap = capacity_of capacity;
  closed = false;
  close_err = none;
}

-- The bytes of the ring after `ensureBuf`: `make` gives zeros.
unfoldable pub ensure_buf : StreamPipe → Bytes
ensure_buf p = elim p.buf [ none ↦ replicate p.cap 0 | some b ↦ b ]

-- copy(b[i:], src)
pub copy_at : Bytes → ℕ → Bytes → Bytes
copy_at b i [] = b
copy_at b i (x ∷ xs) = copy_at (set b i x) (i + 1) xs

-- The ring after `ringWrite`, whose caller has called `ensureBuf`.
unfoldable pub ring_write : StreamPipe → Bytes → StreamPipe
ring_write p src =
    let b = ensure_buf p in
    let n = length src in
    let first = p.cap - p.tail in
    record p {
      buf = some (
          if leb n first
          then copy_at b p.tail src
          else copy_at (copy_at b p.tail (take first src)) 0 (drop first src));
      tail = (p.tail + n) % p.cap;
      size = p.size + n;
    }

-- What `ringRead` puts into a destination of `n` bytes, and the pipe after it.
unfoldable pub ring_read : StreamPipe → ℕ → Bytes × StreamPipe
ring_read p n =
    let b = ensure_buf p in
    let first = p.cap - p.head in
    (
      if leb n first
          then take n (drop p.head b)
          else take first (drop p.head b) ++ take (n - first) b,
      record p { head = (p.head + n) % p.cap; size = p.size - n },
    )

-- The pipe, the count and the error that `WriteNonBlock` returns.
pub write_non_block : StreamPipe → Bytes → StreamPipe × ℕ × Option PipeError
write_non_block p src =
    if p.closed
    then (p, 0, some closed_pipe)
    else if ltb (p.cap - p.size) (length src)
    then (p, 0, some pipe_full)
    else (ring_write p src, length src, none)

-- How a call of `Read` or `Write` ends: with its count or bytes and its error, or in a wait.
pub data Outcome {ℓ} (A : Type ℓ) : Type ℓ where
  returns : A → Option PipeError → Outcome A
  waits : A → Outcome A

-- What a closed pipe answers, once there is nothing to read.
pub closing_error : StreamPipe → PipeError → PipeError
closing_error p d = elim p.close_err [ some e ↦ e | none ↦ d ]

-- `Read` into a destination of `n` bytes.
unfoldable pub read : StreamPipe → ℕ → StreamPipe × Outcome Bytes
unfolding closing_error
read p n =
    if nat_beq p.size 0
    then (if p.closed then (p, returns [] (some (closing_error p end_of_file))) else (p, waits []))
    else (let (out, p') = ring_read p (if ltb p.size n then p.size else n) in
        (p', returns out none))

-- `Write`, from the bytes still to be written and the count of those written. The count is what
-- the caller gets; a wait ends when another call has made room or closed the pipe.
pub write_loop : ℕ → StreamPipe → Bytes → ℕ → StreamPipe × Outcome ℕ
unfolding closing_error
write_loop fuel p [] written = (p, returns written none)
write_loop zero p (x ∷ xs) written = (p, waits written)
write_loop (suc fuel) p (x ∷ xs) written =
    let chunk = min (length (x ∷ xs)) (p.cap - p.size) in
    let more =
      write_loop fuel (ring_write p (take chunk (x ∷ xs))) (drop chunk (x ∷ xs))
        (written + chunk) in
    if p.closed
    then (p, returns written (some (closing_error p closed_pipe)))
    else if nat_beq p.size p.cap
    then (p, waits written)
    else more

-- Each round writes a byte at least, so as many rounds as bytes are enough.
pub write : StreamPipe → Bytes → StreamPipe × Outcome ℕ
write p src = write_loop (length src) p src 0

unfoldable pub close_write : StreamPipe → Option PipeError → StreamPipe
close_write p e = if p.closed then p else record p { closed = true; close_err = e }

pub available : StreamPipe → ℕ
available p = p.size

-- The representation: a ring of `cap` bytes from the first write on, with `size` of them in use
-- from `head` to `tail`.
pub record IsValid (p : StreamPipe) : Type 0 where
  pub cap_pos : 0 < p.cap
  pub head_in : p.head < p.cap
  pub size_in : p.size ≤ p.cap
  pub tail_at : p.tail ≡ (p.head + p.size) % p.cap
  pub storage : length (ensure_buf p) ≡ p.cap
