-- ===== src/Mux/Pipe/Fifo.antt =====
-- A pipe against its specification: a bounded queue of bytes, open or closed.
use accel_proxy.Common.Int.{ℤ}
use accel_proxy.Common.{
  Bool, List, Option, [], ap, append-nil, ap₂, arith, drop, drop-append_self, drop_all, false,
  if◌then◌else◌, length, length-append, length-drop, length-take, length-zero, ltb, min, none, refl,
  some, suc, take, take-append_self, take_all, true, zero, ℕ, ◌++◌, ◌+◌, ◌-◌, ◌∙◌, ◌∷◌, ◌≡◌, ◌≤◌,
  ◌⊎◌,
}
use accel_proxy.Mux.Pipe.{
  IsValid, Outcome, PipeError, StreamPipe, capacity_of, close_write, closed_pipe, closing_error,
  end_of_file, new_stream_pipe, pipe_full, read, returns, ring_read, ring_write, waits, write,
  write_loop, write_non_block,
}
use accel_proxy.Mux.Pipe.Contents.{
  close_write-contents, contents, contents-ring_write, length-contents, new_stream_pipe-IsValid,
  ring_read_keeps, ring_read_lem, ring_write-IsValid, ring_write_keeps,
}
use accel_proxy.Wire.{Bytes}

pub record Queue : Type 0 where
  pub bytes : Bytes
  pub limit : ℕ
  pub over : Bool
  pub reason : Option PipeError

pub data Call : Type 0 where
  write_call try_write_call : Bytes → Call
  read_call : ℕ → Call
  close_call : Option PipeError → Call

pub data Reply : Type 0 where
  wrote : Outcome ℕ → Reply
  tried : ℕ → Option PipeError → Reply
  got : Outcome Bytes → Reply
  done : Reply

reason_or : Queue → PipeError → PipeError
reason_or q d = elim q.reason [ some e ↦ e | none ↦ d ]

-- A blocking write takes what there is room for, and waits with the rest.
spec_write : Queue → Bytes → Queue × Outcome ℕ
spec_write q [] = (q, returns 0 none)
spec_write q (x ∷ xs) =
    let k = min (length (x ∷ xs)) (q.limit - length q.bytes) in
    if q.over then (q, returns 0 (some (reason_or q closed_pipe))) else (
      record q { bytes = q.bytes ++ take k (x ∷ xs) },
      if ltb k (length (x ∷ xs)) then waits k else returns k none,
    )

-- A write that may not wait takes all or nothing.
spec_try_write : Queue → Bytes → Queue × ℕ × Option PipeError
spec_try_write q src =
    if q.over
    then (q, 0, some closed_pipe)
    else if ltb q.limit (length q.bytes + length src)
    then (q, 0, some pipe_full)
    else (record q { bytes = q.bytes ++ src }, length src, none)

-- A read takes the oldest bytes; what was written before the end is still handed over.
spec_read : Queue → ℕ → Queue × Outcome Bytes
spec_read q n = elim q.bytes [
  | [] ↦ if q.over then (q, returns [] (some (reason_or q end_of_file))) else (q, waits [])
  | x ∷ xs ↦ (record q { bytes = drop n (x ∷ xs) }, returns (take n (x ∷ xs)) none)
]

spec_close : Queue → Option PipeError → Queue
spec_close q e = if q.over then q else record q { over = true; reason = e }

pub spec_step : Queue → Call → Queue × Reply
unfolding spec_write spec_try_write spec_read spec_close reason_or
spec_step q (write_call src) = let (q', o) = spec_write q src in (q', wrote o)
spec_step q (try_write_call src) = let (q', n, e) = spec_try_write q src in (q', tried n e)
spec_step q (read_call n) = let (q', o) = spec_read q n in (q', got o)
spec_step q (close_call e) = (spec_close q e, done)

pub step : StreamPipe → Call → StreamPipe × Reply
step p (write_call src) = let (p', o) = write p src in (p', wrote o)
step p (try_write_call src) = let (p', n, e) = write_non_block p src in (p', tried n e)
step p (read_call n) = let (p', o) = read p n in (p', got o)
step p (close_call e) = (close_write p e, done)

pub spec_run : Queue → List Call → List Reply
spec_run q [] = []
spec_run q (c ∷ cs) = let (q', r) = spec_step q c in r ∷ spec_run q' cs

pub run : StreamPipe → List Call → List Reply
run p [] = []
run p (c ∷ cs) = let (p', r) = step p c in r ∷ run p' cs

abbrev pub view : StreamPipe → Queue
view p = record { bytes = contents p; limit = p.cap; over = p.closed; reason = p.close_err }

view-ring_write :
    {p : StreamPipe} (src : Bytes)
    → IsValid p
    → length src ≤ p.cap - p.size
    → view (ring_write p src) ≡ record (view p) { bytes = contents p ++ src }
unfolding ring_write
view-ring_write {p} src v r =
    ap (λ b. record { bytes = b; limit = p.cap; over = p.closed; reason = p.close_err })
      (unfold ring_write in contents-ring_write {p = p} src v r)

-- The rounds after the first: nothing is left to write, or there is no room.
later_rounds :
    (fuel : ℕ) (p : StreamPipe) (src : Bytes) (n : ℕ)
    → p.closed ≡ false
    → (src ≡ []) ⊎ (p.size ≡ p.cap)
    → write_loop fuel p src n ≡ (p, if ltb 0 (length src) then waits n else returns n none)
unfolding write_loop
later_rounds fuel p [] n c h = refl
later_rounds zero p (x ∷ xs) n c h = ground arith
later_rounds (suc fuel) p (x ∷ xs) n c h = ground arith

write_refines :
    (p : StreamPipe) (src : Bytes)
    → IsValid p
    → ((view (write p src).0, (write p src).1) ≡ spec_write (view p) src) × IsValid (write p src).0
unfolding write write_loop spec_write reason_or closing_error
write_refines p [] v = (refl, v)
write_refines p (x ∷ xs) v = ground (
  arith,
  length-contents p,
  view-ring_write (take k (x ∷ xs)) v,
  ring_write-IsValid (take k (x ∷ xs)) v,
  length-take k (x ∷ xs),
  length-drop k (x ∷ xs),
  drop_all k (x ∷ xs),
  take_all k (x ∷ xs),
  later_rounds (length xs) (ring_write p (take k (x ∷ xs))) (drop k (x ∷ xs)) (0 + k),
  ring_write_keeps p (take k (x ∷ xs)),
  append-nil (contents p),
)
  where
    k : ℕ
    k = min (length (x ∷ xs)) (p.cap - p.size)

try_write_refines :
    (p : StreamPipe) (src : Bytes)
    → IsValid p
    → (let (p', n, e) = write_non_block p src in (view p', n, e) ≡ spec_try_write (view p) src)
      × IsValid (write_non_block p src).0
unfolding write_non_block spec_try_write
try_write_refines p src v =
    ground (arith, length-contents p, view-ring_write src v, ring_write-IsValid src v)

-- A prefix of known length is what `take` gives.
take-drop-append :
    (xs out rest : Bytes) (n : ℕ)
    → xs ≡ out ++ rest
    → length out ≡ (if ltb (length xs) n then length xs else n)
    → (take n xs ≡ out) × (drop n xs ≡ rest)
take-drop-append xs out [] n e l = ground (arith, take_all n xs, drop_all n xs, append-nil out)
take-drop-append xs out (y ∷ ys) n e l = ground (
  arith,
  length-append out (y ∷ ys),
  take-append_self out (y ∷ ys) n,
  drop-append_self out (y ∷ ys) n,
)

read_refines :
    (p : StreamPipe) (n : ℕ)
    → IsValid p
    → ((view (read p n).0, (read p n).1) ≡ spec_read (view p) n) × IsValid (read p n).0
unfolding read spec_read reason_or closing_error
read_refines p n v = ground (
  arith,
  length-contents p,
  ring_read_lem p k v,
  ring_read_keeps p k,
  take-drop-append (contents p) (ring_read p k).0 (contents (ring_read p k).1) n,
)
  where
    k : ℕ
    k = if ltb p.size n then p.size else n

close_write_keeps :
    (p : StreamPipe) (e : Option PipeError)
    → ((close_write p e).closed ≡ true)
      × ((close_write p e).close_err ≡ (if p.closed then p.close_err else e))
      × ((close_write p e).cap ≡ p.cap)
unfolding close_write
close_write_keeps p e = ground arith

close_refines :
    (p : StreamPipe) (e : Option PipeError)
    → IsValid p
    → (view (close_write p e) ≡ spec_close (view p) e) × IsValid (close_write p e)
unfolding spec_close
close_refines p e v =
    let (c, keeps) = close_write-contents p e in (ground (arith, c, close_write_keeps p e), keeps v)

-- Each method call answers as the bounded queue of the bytes in the pipe does, leaves the pipe
-- holding that queue's bytes, and keeps the ring well formed.
pub step_refines :
    (p : StreamPipe) (c : Call)
    → IsValid p
    → ((view (step p c).0, (step p c).1) ≡ spec_step (view p) c) × IsValid (step p c).0
unfolding step spec_step
step_refines p (write_call src) v = ground (arith, write_refines p src v)
step_refines p (try_write_call src) v = ground (arith, try_write_refines p src v)
step_refines p (read_call n) v = ground (arith, read_refines p n v)
step_refines p (close_call e) v = ground (arith, close_refines p e v)

-- No sequence of calls tells a well-formed pipe from the bounded queue of its bytes: bytes come
-- out in the order they went in, none is lost or made up, and all that was written before the end
-- is handed over before the end is reported.
pub run_refines : (cs : List Call) (p : StreamPipe) → IsValid p → run p cs ≡ spec_run (view p) cs
unfolding run spec_run
run_refines [] p v = refl
run_refines (c ∷ cs) p v =
    let (e, v') = step_refines p c v in
    ap₂ ◌∷◌ (ap (λ t. t.1) e) (run_refines cs (step p c).0 v' ∙ ap (λ t. spec_run t.0 cs) e)

-- A new pipe is well formed and holds nothing, whatever capacity was asked for.
pub new_stream_pipe_lem :
    (c : ℤ)
    → IsValid (new_stream_pipe c)
      × (view (new_stream_pipe c)
          ≡ record { bytes = []; limit = capacity_of c; over = false; reason = none })
unfolding new_stream_pipe
new_stream_pipe_lem c = (
  new_stream_pipe-IsValid c,
  ap (λ b. record { bytes = b; limit = capacity_of c; over = false; reason = none })
      (unfold new_stream_pipe in
        length-zero (contents (new_stream_pipe c)) (length-contents (new_stream_pipe c))),
)
