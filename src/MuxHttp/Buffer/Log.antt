-- ===== src/MuxHttp/Buffer/Log.antt =====
-- Reads of a stream buffer against its log.
use accel_proxy.MuxHttp.Buffer.Access.{drop-passed, first_reaches, read_loop_lem}
use accel_proxy.Common.{
  List, [], ap, ap₂, arith, drop, drop-drop, ge→ltb, if_both, if_false, if_true, if◌then◌else◌, inl,
  inr, length, le→leb, lt→leb, lt→ltb, max, nat-lt-or-ge, nat_beq, none, some, subst, sym, take, ℕ,
  ◌+◌, ◌-◌, ◌<◌, ◌∙◌, ◌≡◌, ◌≤◌, ◌⊎◌,
}
use accel_proxy.Common.Int.{ℤ}
use accel_proxy.MuxHttp.Buffer.Calls.{Call, Holds, log_of, new-Holds, run, run-Holds, trim-Holds}
use accel_proxy.MuxHttp.Buffer.{
  StreamBuffer, ends_after, new_stream_buffer, offset_evicted, read, read_loop, search, start_of,
  trim,
}
use accel_proxy.MuxHttp.Buffer.Chain.{passed, search-passed}
use accel_proxy.Wire.{Bytes}

pub read-Holds :
    (b : StreamBuffer) (log : Bytes) (offset len : ℕ)
    → Holds b log
    → b.base_offset ≤ offset
    → offset < length log
    → read b offset len ≡ (take len (drop offset log), none)
unfolding read
read-Holds b log offset len v p q =
    let w = b.write_offset in
    let left = drop (passed b.segments offset) b.segments in
    let start = start_of left w in
    let (c, h, x, y, z) = drop-passed b.base_offset b.segments w offset v.chained in
    if_false _ (ge→ltb offset b.base_offset p)
    ∙ if_false _ (lt→leb w offset (omega (arith, v.written)))
    ∙ ap (λ t. (t, none))
        (ap (λ k. read_loop (drop k b.segments) offset 0 len)
            (search-passed b.base_offset b.segments w offset v.chained)
          ∙ read_loop_lem start left w offset 0 len c (omega arith) (omega arith)
              (omega (arith, first_reaches b.segments w offset (omega (arith, v.written))))
          ∙ ap (take (len - 0)) (
              ap (drop (offset + 0 - start)) (h ∙ ap (drop (start - b.base_offset)) v.kept)
              ∙ ap (drop (offset + 0 - start)) (drop-drop b.base_offset (start - b.base_offset) log)
              ∙ drop-drop (b.base_offset + (start - b.base_offset)) (offset + 0 - start) log
              ∙ ap (λ k. drop k log) (omega arith))
          ∙ ap (λ k. take k (drop offset log)) (omega arith))

pub read_end :
    (b : StreamBuffer) (offset len : ℕ)
    → b.base_offset ≤ offset
    → b.write_offset ≤ offset
    → read b offset len ≡ ([], if b.closed then some b.close_err else none)
unfolding read
read_end b offset len p q =
    if_false _ (ge→ltb offset b.base_offset p) ∙ if_true _ (le→leb b.write_offset offset q)

read_evicted :
    (b : StreamBuffer) (offset len : ℕ)
    → offset < b.base_offset
    → read b offset len ≡ ([], some offset_evicted)
unfolding read
read_evicted b offset len h = if_true _ (lt→ltb offset b.base_offset h)

-- The three answers of a read.
pub read-cases :
    (b : StreamBuffer) (log : Bytes) (offset len : ℕ)
    → Holds b log
    → (read b offset len ≡ ([], some offset_evicted))
      ⊎ ((length log ≤ offset)
          × (read b offset len ≡ ([], if b.closed then some b.close_err else none)))
      ⊎ ((offset < length log) × (read b offset len ≡ (take len (drop offset log), none)))
read-cases b log offset len v = elim (nat-lt-or-ge offset b.base_offset) [
  | inl h ↦ inl (read_evicted b offset len h)
  | inr h ↦ elim (nat-lt-or-ge offset (length log)) [
    | inl k ↦ inr (inr (k, read-Holds b log offset len v h k))
    | inr k ↦ inr (inl (k, read_end b offset len h (omega (arith, v.written))))
  ]
]

trim_keeps :
    (b : StreamBuffer) (n : ℕ)
    → ((trim b n).write_offset ≡ b.write_offset)
      × ((trim b n).closed ≡ b.closed)
      × ((trim b n).close_err ≡ b.close_err)
unfolding trim
trim_keeps b n = ground arith

pub trim_base :
    (b : StreamBuffer) (log : Bytes) (n : ℕ)
    → Holds b log
    → (trim b n).base_offset ≤ max b.base_offset n
unfolding trim
trim_base b log n v =
    if_both (λ (r : StreamBuffer). r.base_offset ≤ max b.base_offset n)
      (nat_beq (search (length b.segments) (ends_after b.segments n)) 0) (λ t. omega arith)
      (λ t.
        subst (λ k. start_of (drop k b.segments) b.write_offset ≤ max b.base_offset n)
          (sym (search-passed b.base_offset b.segments b.write_offset n v.chained))
          (drop-passed b.base_offset b.segments b.write_offset n v.chained).3)

-- From a new buffer on, whatever calls of `Append`, `Trim` and `Close` have been made: a read at
-- any offset that is not evicted and not past the end gives the bytes of the log at that offset,
-- where the log is the chunks that `Append` accepted, one after the other.
pub read-run :
    (m : ℤ) (cs : List Call) (offset len : ℕ)
    → (run (new_stream_buffer m) cs).base_offset ≤ offset
    → offset < length (log_of (new_stream_buffer m) cs)
    → read (run (new_stream_buffer m) cs) offset len
      ≡ (take len (drop offset (log_of (new_stream_buffer m) cs)), none)
read-run m cs offset len p q =
    read-Holds (run (new_stream_buffer m) cs) (log_of (new_stream_buffer m) cs) offset len
      (run-Holds (new_stream_buffer m) [] cs (new-Holds m)) p q

-- Trimming up to an offset changes no answer of a read at that offset or later.
pub read-trim_held :
    (b : StreamBuffer) (log : Bytes) (n offset len : ℕ)
    → Holds b log
    → b.base_offset ≤ offset
    → n ≤ offset
    → read (trim b n) offset len ≡ read b offset len
read-trim_held b log n offset len v p q = elim (nat-lt-or-ge offset (length log)) [
  | inl h ↦
      read-Holds (trim b n) log offset len (trim-Holds b log n v) in_base h
      ∙ sym (read-Holds b log offset len v p h)
  | inr h ↦
      (let (w, c, e) = trim_keeps b n in
        read_end (trim b n) offset len in_base (omega (arith, w, v.written))
        ∙ ap₂ (λ x y. ([], if x then some y else none)) c e
        ∙ sym (read_end b offset len p (omega (arith, v.written))))
]
  where
    in_base : (trim b n).base_offset ≤ offset
    in_base = omega (arith, trim_base b log n v)

-- From a new buffer on, whatever calls have been made: trimming up to an offset changes no answer
-- of a read at that offset or later, of bytes and of the end alike.
pub read-trim :
    (m : ℤ) (cs : List Call) (n offset len : ℕ)
    → (run (new_stream_buffer m) cs).base_offset ≤ offset
    → n ≤ offset
    → read (trim (run (new_stream_buffer m) cs) n) offset len
      ≡ read (run (new_stream_buffer m) cs) offset len
read-trim m cs n offset len p q =
    read-trim_held (run (new_stream_buffer m) cs) (log_of (new_stream_buffer m) cs) n offset len
      (run-Holds (new_stream_buffer m) [] cs (new-Holds m)) p q
