-- ===== src/Mux/Pipe/Steps.antt =====
-- What a client that keeps to the free space sees of a pipe that is open.
use accel_proxy.Common.{
  [], arith, false, if◌then◌else◌, length, ltb, none, ℕ, ◌++◌, ◌+◌, ◌-◌, ◌≡◌, ◌≤◌,
}
use accel_proxy.Mux.Pipe.{IsValid, Outcome, StreamPipe, read, returns, waits, write_non_block}
use accel_proxy.Mux.Pipe.Contents.{
  contents, contents-ring_write, ring_read_keeps, ring_read_lem, ring_read_size, ring_write-IsValid,
  ring_write_keeps,
}
use accel_proxy.Wire.{Bytes}

pub write_non_block_open :
    (p : StreamPipe) (src : Bytes)
    → IsValid p
    → p.closed ≡ false
    → length src ≤ p.cap - p.size
    → let (p', n, e) = write_non_block p src in
      (e ≡ none)
      × (contents p' ≡ contents p ++ src)
      × (p'.size ≡ p.size + length src)
      × (p'.cap ≡ p.cap)
      × (p'.closed ≡ false)
      × IsValid p'
unfolding write_non_block
write_non_block_open p src v o r = ground (
  arith,
  ring_write_keeps p src,
  contents-ring_write {p = p} src v r,
  ring_write-IsValid {p = p} src v r,
)

-- The bytes that a read hands over.
abbrev pub bytes_of : Outcome Bytes → Bytes
bytes_of (returns out e) = out
bytes_of (waits out) = []

-- A read, of an open or a closed pipe.
pub read_any :
    (p : StreamPipe) (n : ℕ)
    → IsValid p
    → let (p', o) = read p n in
      (contents p ≡ bytes_of o ++ contents p')
      × (p.size ≡ length (bytes_of o) + p'.size)
      × (p'.cap ≡ p.cap)
      × (p'.closed ≡ p.closed)
      × IsValid p'
unfolding read
read_any p n v = ground (arith, ring_read_keeps p k, ring_read_lem p k v, ring_read_size p k)
  where
    k : ℕ
    k = if ltb p.size n then p.size else n
