-- ===== src/Mux/Pipe/Contents.antt =====
-- What a pipe holds, and how each operation changes it.
use native.Mathlib.Nat.{mod-eq_of_lt, mod-add-mod, mod-lt, add_assoc}
use accel_proxy.Common.{
  Bool-cases, Option, ap, arith, drop, inl, inr, length, length-drop, length-replicate, length-take,
  refl, sym, take, take-append-drop, ℕ, ◌%◌, ◌++◌, ◌+◌, ◌-◌, ◌<◌, ◌∙◌, ◌≡◌, ◌≤◌,
}
use accel_proxy.Wire.{Bytes}
use accel_proxy.Common.Int.{negsuc, pos, ℤ}
use accel_proxy.Mux.Pipe.{
  IsValid, PipeError, StreamPipe, capacity_of, close_write, ensure_buf, new_stream_pipe, ring_read,
  ring_write,
}
use accel_proxy.Mux.Pipe.Ring.{
  copy_at-eq-put, copy_at_twice, length-put, length-window, put, window, window-add, window-put,
  window_slice, window_slices,
}

-- The bytes in the pipe, oldest first.
unfoldable pub contents : StreamPipe → Bytes
contents p = window (ensure_buf p) p.cap p.head p.size

pub length-contents : (p : StreamPipe) → length (contents p) ≡ p.size
unfolding contents
length-contents p = length-window (ensure_buf p) p.cap p.head p.size

-- The ring after `ringWrite`, as bytes put one by one.
ring_write-put :
    (p : StreamPipe) (src : Bytes)
    → IsValid p
    → length src ≤ p.cap - p.size
    → ensure_buf (ring_write p src) ≡ put (ensure_buf p) p.cap p.tail src
unfolding ring_write ensure_buf
ring_write-put p src v r = ground (
  arith,
  copy_at-eq-put (ensure_buf p) p.cap p.tail src,
  copy_at_twice (ensure_buf p) p.cap p.tail (take first src) (drop first src),
  take-append-drop first src,
  length-take first src,
  length-drop first src,
)
  where
    first : ℕ
    first = p.cap - p.tail

pub ring_write-IsValid :
    {p : StreamPipe} (src : Bytes)
    → IsValid p
    → length src ≤ p.cap - p.size
    → IsValid (ring_write p src)
unfolding ring_write
ring_write-IsValid {p} src v r = record {
  cap_pos = v.cap_pos;
  head_in = v.head_in;
  size_in = omega (arith, v.size_in);
  tail_at = rw v.tail_at (
      mod-add-mod (p.head + p.size) p.cap (length src)
      ∙ ap (λ k. k % p.cap) (add_assoc p.head p.size (length src)));
  storage =
      ap length (ring_write-put p src v r) ∙ length-put (ensure_buf p) p.cap p.tail src ∙ v.storage;
}

pub contents-ring_write :
    {p : StreamPipe} (src : Bytes)
    → IsValid p
    → length src ≤ p.cap - p.size
    → contents (ring_write p src) ≡ contents p ++ src
unfolding contents ring_write ensure_buf
contents-ring_write {p} src v r =
    ap (λ b. window b p.cap p.head (p.size + length src)) (ring_write-put p src v r)
    ∙ rw v.tail_at
        (window-put (ensure_buf p) p.cap p.head p.size src v.storage (omega (arith, v.size_in)))

-- What `ringRead` hands over is the start of the window.
ring_read-window :
    (p : StreamPipe) (n : ℕ)
    → IsValid p
    → n ≤ p.size
    → (ring_read p n).0 ≡ window (ensure_buf p) p.cap p.head n
unfolding ring_read
ring_read-window p n v r =
    ground (
      arith,
      window_slice (ensure_buf p) p.cap p.head n,
      window_slices (ensure_buf p) p.cap p.head n,
    )

-- `ringRead` hands over the oldest bytes, and keeps the rest.
pub ring_read_lem :
    (p : StreamPipe) (n : ℕ)
    → IsValid p
    → n ≤ p.size
    → (contents p ≡ (ring_read p n).0 ++ contents (ring_read p n).1)
      × (length (ring_read p n).0 ≡ n)
      × IsValid (ring_read p n).1
unfolding contents ring_read ensure_buf
ring_read_lem p n v r =
    let m : p.size ≡ n + (p.size - n) = omega arith in
    let e = ring_read-window p n v r in
    (
      ap (window (ensure_buf p) p.cap p.head) m
          ∙ window-add (ensure_buf p) p.cap p.head n (p.size - n)
          ∙ ap (λ t. t ++ window (ensure_buf p) p.cap ((p.head + n) % p.cap) (p.size - n)) (sym e),
      ap length e ∙ length-window (ensure_buf p) p.cap p.head n,
      record {
        cap_pos = v.cap_pos;
        head_in = mod-lt _ v.cap_pos;
        size_in = omega (arith, v.size_in);
        tail_at =
            v.tail_at
            ∙ sym (mod-add-mod (p.head + n) p.cap (p.size - n) ∙ ap (λ k. k % p.cap) (omega arith));
        storage = v.storage;
      },
    )

pub close_write-contents :
    (p : StreamPipe) (e : Option PipeError)
    → (contents (close_write p e) ≡ contents p) × (IsValid p → IsValid (close_write p e))
unfolding close_write contents ensure_buf
close_write-contents p e = elim (Bool-cases p.closed) [
  | inl c ↦ rw c (refl, λ v. v)
  | inr c ↦ rw c (
    refl,
    λ v. record {
      cap_pos = v.cap_pos;
      head_in = v.head_in;
      size_in = v.size_in;
      tail_at = v.tail_at;
      storage = v.storage;
    },
  )
]

pub capacity_of-pos : (c : ℤ) → 0 < capacity_of c
unfolding capacity_of
capacity_of-pos (pos n) = ground arith
capacity_of-pos (negsuc n) = omega arith

pub new_stream_pipe-IsValid : (c : ℤ) → IsValid (new_stream_pipe c)
unfolding new_stream_pipe ensure_buf
new_stream_pipe-IsValid c = record {
  cap_pos = capacity_of-pos c;
  head_in = capacity_of-pos c;
  size_in = omega arith;
  tail_at = sym (mod-eq_of_lt {n = 0 + 0} {m = capacity_of c} (capacity_of-pos c));
  storage = length-replicate (capacity_of c) 0;
}

pub ring_write_keeps :
    (p : StreamPipe) (src : Bytes)
    → ((ring_write p src).closed ≡ p.closed)
      × ((ring_write p src).size ≡ p.size + length src)
      × ((ring_write p src).cap ≡ p.cap)
unfolding ring_write
ring_write_keeps p src = (refl, refl, refl)

pub ring_read_keeps :
    (p : StreamPipe) (n : ℕ)
    → ((ring_read p n).1.closed ≡ p.closed)
      × ((ring_read p n).1.close_err ≡ p.close_err)
      × ((ring_read p n).1.cap ≡ p.cap)
unfolding ring_read
ring_read_keeps p n = (refl, refl, refl)

pub ring_read_size : (p : StreamPipe) (n : ℕ) → (ring_read p n).1.size ≡ p.size - n
unfolding ring_read
ring_read_size p n = refl
