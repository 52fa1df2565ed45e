-- ===== src/MuxHttp/Receive/Contents.antt =====
-- The bytes in a `RecvBuffer`: what is written is read, in order, across a disconnect too.
use accel_proxy.Common.{
  Option, [], ap, append-nil, arith, drop, drop_all, drop_none, false, if◌then◌else◌, length,
  length-drop, length-take, ltb, min, none, refl, some, subst, suc, sym, take, take_all, take_none,
  zero, ℕ, ◌++◌, ◌+◌, ◌-◌, ◌<◌, ◌∙◌, ◌∷◌, ◌≡◌, ◌≤◌, ◌⊎◌,
}
use accel_proxy.MuxHttp.Receive.{
  RecvBuffer, RecvError, close, read, reopen, returns, ring_read, ring_write, waits, write,
  write_loop,
}
use accel_proxy.Wire.{Bytes}
use accel_proxy.Mux.Pipe.{
  ring_write as pipe_write, ring_read as pipe_read, IsValid, StreamPipe, ensure_buf,
}
use accel_proxy.Mux.Pipe.Contents.{contents, contents-ring_write, ring_read_lem, ring_write-IsValid}

-- The same ring, as that of a `StreamPipe`.
unfoldable pub as_pipe : RecvBuffer → StreamPipe
as_pipe b = record {
  buf = some b.buf;
  head = b.head;
  tail = b.tail;
  size = b.size;
  cap = b.cap;
  closed = b.closed;
  close_err = none;
}

unfoldable pub IsRecv : RecvBuffer → Type 0
IsRecv b = IsValid (as_pipe b)

-- The bytes that wait to be read.
unfoldable pub waiting : RecvBuffer → Bytes
waiting b = contents (as_pipe b)

ring_write_as :
    (b : RecvBuffer) (src : Bytes) → as_pipe (ring_write b src) ≡ pipe_write (as_pipe b) src
unfolding as_pipe ring_write pipe_write ensure_buf
ring_write_as b src = refl

ring_read_as :
    (b : RecvBuffer) (n : ℕ)
    → ((ring_read b n).0, as_pipe (ring_read b n).1) ≡ pipe_read (as_pipe b) n
unfolding as_pipe ring_read pipe_read ensure_buf
ring_read_as b n = refl

ring_write_lem :
    (b : RecvBuffer) (src : Bytes)
    → IsRecv b
    → length src ≤ b.cap - b.size
    → IsRecv (ring_write b src) × (waiting (ring_write b src) ≡ waiting b ++ src)
unfolding IsRecv waiting as_pipe
ring_write_lem b src v r =
    subst (λ p. IsValid p × (contents p ≡ contents (as_pipe b) ++ src)) (sym (ring_write_as b src))
      (ring_write-IsValid {p = as_pipe b} src v r, contents-ring_write {p = as_pipe b} src v r)

pub ring_write_keeps :
    (b : RecvBuffer) (src : Bytes)
    → ((ring_write b src).closed ≡ b.closed)
      × ((ring_write b src).size ≡ b.size + length src)
      × ((ring_write b src).cap ≡ b.cap)
unfolding ring_write
ring_write_keeps b src = (refl, refl, refl)

size_in_cap : (b : RecvBuffer) → IsRecv b → b.size ≤ b.cap
unfolding IsRecv as_pipe
size_in_cap b v = v.size_in

-- The round after the first: nothing is left to write, or there is no room.
later_round :
    (fuel : ℕ) (b : RecvBuffer) (src : Bytes)
    → b.closed ≡ false
    → (src ≡ []) ⊎ (b.size ≡ b.cap)
    → write_loop fuel b src ≡ (b, if ltb 0 (length src) then waits src else returns [] none)
unfolding write_loop
later_round fuel b [] c h = refl
later_round zero b (x ∷ xs) c h = ground arith
later_round (suc fuel) b (x ∷ xs) c h = ground arith

-- A write to a valid open buffer stores what there is room for, after what waits there, and waits
-- with exactly the rest; it returns without an error when all is stored.
pub write_lem :
    (b : RecvBuffer) (src : Bytes)
    → IsRecv b
    → b.closed ≡ false
    → let k = min (length src) (b.cap - b.size) in
      let (b', o) = write b src in
      IsRecv b'
      × (waiting b' ≡ waiting b ++ take k src)
      × (o ≡ (if ltb k (length src) then waits (drop k src) else returns [] none))
unfolding write write_loop
write_lem b [] v c = (
  v,
  sym (
      ap (λ t. waiting b ++ t) (take_all (min 0 (b.cap - b.size)) [] (omega arith))
      ∙ append-nil (waiting b)),
  ground arith,
)
write_lem b (x ∷ xs) v c = ground (
  arith,
  size_in_cap b v,
  ring_write_lem b (take k (x ∷ xs)) v,
  ring_write_keeps b (take k (x ∷ xs)),
  length-take k (x ∷ xs),
  length-drop k (x ∷ xs),
  drop_all k (x ∷ xs),
  drop_none k (x ∷ xs),
  take_none k (x ∷ xs),
  append-nil (waiting b),
  later_round (length xs) (ring_write b (take k (x ∷ xs))) (drop k (x ∷ xs)),
)
  where
    k : ℕ
    k = min (length (x ∷ xs)) (b.cap - b.size)

pub ring_read_keeps : (b : RecvBuffer) (n : ℕ) → ((ring_read b n).1.closed ≡ b.closed)
unfolding ring_read
ring_read_keeps b n = refl

pub ring_read-waiting :
    (b : RecvBuffer) (n : ℕ)
    → IsRecv b
    → n ≤ b.size
    → (waiting b ≡ (ring_read b n).0 ++ waiting (ring_read b n).1)
      × (length (ring_read b n).0 ≡ n)
      × IsRecv (ring_read b n).1
unfolding IsRecv waiting as_pipe
ring_read-waiting b n v r =
    subst
      (λ (t : Bytes × StreamPipe).
        (contents (as_pipe b) ≡ t.0 ++ contents t.1) × (length t.0 ≡ n) × IsValid t.1)
      (sym (ring_read_as b n)) (ring_read_lem (as_pipe b) n v r)

read_parts :
    (b : RecvBuffer) (n : ℕ)
    → IsRecv b
    → 0 < b.size
    → let k = if ltb b.size n then b.size else n in
      let out = (ring_read b k).0 in
      ((read b n).1 ≡ returns out none)
      × (length out ≡ min n b.size)
      × (waiting b ≡ out ++ waiting (read b n).0)
      × IsRecv (read b n).0
unfolding read
read_parts b n v h = ground (arith, ring_read-waiting b (if ltb b.size n then b.size else n) v)

-- A read of a valid buffer in which bytes wait hands over the oldest of them, as many as asked
-- for if there are, leaves the others, and returns no error, whether the buffer is closed or not.
pub read_lem :
    (b : RecvBuffer) (n : ℕ)
    → IsRecv b
    → 0 < b.size
    → (out : Bytes) × ((read b n).1 ≡ returns out none)
      × (length out ≡ min n b.size)
      × (waiting b ≡ out ++ waiting (read b n).0)
      × IsRecv (read b n).0
read_lem b n v h =
    let (a, c, d, e) = read_parts b n v h in
    ((ring_read b (if ltb b.size n then b.size else n)).0, a, c, d, e)

-- A disconnect loses nothing: after `Close` with any error and `Reopen`, an open buffer is open and
-- holds the bytes that it held.
pub reopen-close :
    (b : RecvBuffer) (e : Option RecvError)
    → b.closed ≡ false
    → ((reopen (close b e)).closed ≡ false) × (waiting (reopen (close b e)) ≡ waiting b)
unfolding reopen close waiting contents as_pipe
reopen-close b e c = ground arith
