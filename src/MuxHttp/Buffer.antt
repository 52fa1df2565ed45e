-- ===== src/MuxHttp/Buffer.antt =====
-- internal/mux_http/server/streambuf.go: `StreamBuffer`, the retained part of one push stream.
-- Each function is what the method does under the lock; offsets are natural numbers, without a bound.
pub mod Search
pub mod Chain
pub mod Access
pub mod Storing
pub mod Calls
pub mod Log
use accel_proxy.Common.{
  Bool, List, Option, String, [], drop, false, get_or, if◌then◌else◌, leb, length, ltb, min,
  nat_beq, none, not, some, suc, take, true, zero, ℕ, ◌*◌, ◌++◌, ◌+◌, ◌-◌, ◌/◌, ◌∷◌,
}
use accel_proxy.Common.Int.{ltz, pos, ℤ}
use accel_proxy.Wire.{Bytes}

abbrev pub segment_size : ℕ
segment_size = 4 * 1024 * 1024

pub record Segment : Type 0 where
  pub base_offset : ℕ
  pub bytes : Bytes

pub data StreamError : Type 0 where
  end_of_stream offset_evicted buffer_closed : StreamError
  closed_with : String → StreamError

pub record StreamBuffer : Type 0 where
  pub segments : List Segment
  pub base_offset : ℕ
  pub write_offset : ℕ
  pub max_retain : ℤ
  pub closed : Bool
  pub close_err : StreamError

unfoldable pub new_stream_buffer : ℤ → StreamBuffer
new_stream_buffer max_retain = record {
  segments = [];
  base_offset = 0;
  write_offset = 0;
  max_retain = max_retain;
  closed = false;
  close_err = end_of_stream;
}

-- Whether `Append` starts a new segment: there is none, or the last one is full.
unfoldable pub needs_segment : List Segment → Bool
needs_segment [] = true
needs_segment (s ∷ []) = leb segment_size (length s.bytes)
needs_segment (s ∷ t ∷ more) = needs_segment (t ∷ more)

unfoldable pub last_length : List Segment → ℕ
last_length [] = 0
last_length (s ∷ []) = length s.bytes
last_length (s ∷ t ∷ more) = last_length (t ∷ more)

-- last.data = append(last.data, chunk...)
unfoldable pub extend_last : List Segment → Bytes → List Segment
extend_last [] chunk = []
extend_last (s ∷ []) chunk = record s { bytes = s.bytes ++ chunk } ∷ []
extend_last (s ∷ t ∷ more) chunk = s ∷ extend_last (t ∷ more) chunk

-- The segments that a round of `Append` goes on with: the last one has room.
unfoldable pub with_room : List Segment → ℕ → List Segment
with_room segs at =
    if needs_segment segs then segs ++ (record { base_offset = at; bytes = [] } ∷ []) else segs

-- The loop of `Append`: the segments, the offset of the next byte, and the bytes still to be
-- stored. Each round stores one at least, so as many rounds as bytes are enough.
unfoldable pub append_loop : ℕ → List Segment → ℕ → Bytes → List Segment
append_loop fuel segs at [] = segs
append_loop zero segs at (x ∷ xs) = segs
append_loop (suc fuel) segs at (x ∷ xs) =
    let segs' = with_room segs at in
    let n = min (length (x ∷ xs)) (segment_size - last_length segs') in
    append_loop fuel (extend_last segs' (take n (x ∷ xs))) (at + n) (drop n (x ∷ xs))

pub data Appended : Type 0 where
  stored refused waits : Appended

unfoldable pub append : StreamBuffer → Bytes → StreamBuffer × Appended
append b chunk =
    if b.closed
    then (b, refused)
    else if not (ltz (pos (b.write_offset - b.base_offset)) b.max_retain)
    then (b, waits)
    else (
      record b {
        segments = append_loop (length chunk) b.segments b.write_offset chunk;
        write_offset = b.write_offset + length chunk;
      },
      stored,
    )

unfoldable pub close : StreamBuffer → Option StreamError → StreamBuffer
close b e =
    if b.closed
    then b
    else record b { closed = true; close_err = (elim e [ none ↦ end_of_stream | some x ↦ x ]) }

-- sort.Search(n, f) of the standard library, from the bounds it has reached. They come closer in each
-- round, so as many rounds as there are places between them are enough.
unfoldable pub search_loop : ℕ → (ℕ → Bool) → ℕ → ℕ → ℕ
search_loop zero f i j = i
search_loop (suc fuel) f i j =
    let h = (i + j) / 2 in
    let low = search_loop fuel f i h in
    let high = search_loop fuel f (h + 1) j in if ltb i j then (if f h then low else high) else i

unfoldable pub search : ℕ → (ℕ → Bool) → ℕ
search n f = search_loop n f 0 n

abbrev pub no_segment : Segment
no_segment = record { base_offset = 0; bytes = [] }

-- The test of both binary searches.
unfoldable pub ends_after : List Segment → ℕ → ℕ → Bool
ends_after segs offset i =
    let s = get_or segs i no_segment in ltb offset (s.base_offset + length s.bytes)

-- The loop of `Read` over the segments from the first one on: `n` bytes have been copied, and
-- there is room for `len`.
unfoldable pub read_loop : List Segment → ℕ → ℕ → ℕ → Bytes
read_loop [] offset n len = []
read_loop (seg ∷ more) offset n len =
    let start = offset + n - seg.base_offset in
    let size = length seg.bytes in
    let stop = (if ltb (len - n) (size - start) then start + (len - n) else size) in
    let rest = read_loop more offset (n + (stop - start)) len in
    if ltb n len then take (stop - start) (drop start seg.bytes) ++ rest else []

-- `Read` into a buffer of `len` bytes: the bytes and the error.
unfoldable pub read : StreamBuffer → ℕ → ℕ → Bytes × Option StreamError
read b offset len =
    let first = search (length b.segments) (ends_after b.segments offset) in
    if ltb offset b.base_offset
    then ([], some offset_evicted)
    else if leb b.write_offset offset
    then ([], if b.closed then some b.close_err else none)
    else (read_loop (drop first b.segments) offset 0 len, none)

-- Where the segments begin, if there is one.
abbrev pub start_of : List Segment → ℕ → ℕ
start_of [] d = d
start_of (s ∷ more) d = s.base_offset

pub trim : StreamBuffer → ℕ → StreamBuffer
trim b min_offset =
    let trim_count = search (length b.segments) (ends_after b.segments min_offset) in
    let left = drop trim_count b.segments in
    if nat_beq trim_count 0
    then b
    else record b { segments = left; base_offset = start_of left b.write_offset }
