-- ===== src/MuxHttp/Buffer/Calls.antt =====
-- A stream buffer over its calls, and its specification: a log, of which a prefix may be forgotten.
use accel_proxy.MuxHttp.Buffer.Access.{drop-passed}
use accel_proxy.MuxHttp.Buffer.Storing.{append_loop_lem}
use accel_proxy.Common.{
  List, Option, [], ap, append-nil, append_assoc, arith, drop, drop-append_le, drop-drop, if_both,
  length, length-append, nat_beq, not, refl, subst, sym, true, ℕ, ◌++◌, ◌+◌, ◌-◌, ◌∙◌, ◌∷◌, ◌≡◌,
}
use accel_proxy.Common.Int.{ltz, pos, ℤ}
use accel_proxy.MuxHttp.Buffer.{
  Appended, StreamBuffer, StreamError, append, append_loop, close, ends_after, new_stream_buffer,
  refused, search, start_of, stored, trim, waits,
}
use accel_proxy.MuxHttp.Buffer.Chain.{Chain, Chain-size, held, passed, search-passed}
use accel_proxy.Wire.{Bytes}

pub data Call : Type 0 where
  append_call : Bytes → Call
  trim_call : ℕ → Call
  close_call : Option StreamError → Call

unfoldable pub step : StreamBuffer → Call → StreamBuffer
step b (append_call chunk) = (append b chunk).0
step b (trim_call n) = trim b n
step b (close_call e) = close b e

unfoldable pub stored_part : Appended → Bytes → Bytes
stored_part stored chunk = chunk
stored_part refused chunk = []
stored_part waits chunk = []

-- What a call adds to the log: a chunk that was stored.
unfoldable pub logged : StreamBuffer → Call → Bytes
unfolding stored_part
logged b (append_call chunk) = stored_part (append b chunk).1 chunk
logged b (trim_call n) = []
logged b (close_call e) = []

unfoldable pub run : StreamBuffer → List Call → StreamBuffer
run b [] = b
run b (c ∷ cs) = run (step b c) cs

unfoldable pub log_of : StreamBuffer → List Call → Bytes
log_of b [] = []
log_of b (c ∷ cs) = logged b c ++ log_of (step b c) cs

-- The buffer holds the log from its base on.
pub record Holds (b : StreamBuffer) (log : Bytes) : Type 0 where
  pub chained : Chain b.base_offset b.segments b.write_offset
  pub kept : held b.segments ≡ drop b.base_offset log
  pub written : b.write_offset ≡ length log

append-Holds :
    (b : StreamBuffer) (log chunk : Bytes)
    → Holds b log
    → Holds (append b chunk).0 (log ++ logged b (append_call chunk))
unfolding append logged stored_part
append-Holds b log chunk v =
    if_both goal b.closed (λ t. unchanged)
      (λ t.
        if_both goal (not (ltz (pos (b.write_offset - b.base_offset)) b.max_retain))
          (λ u. unchanged) (λ u. more))
  where
    goal : StreamBuffer × Appended → Type 0
    goal r = Holds r.0 (log ++ stored_part r.1 chunk)

    unchanged : Holds b (log ++ [])
    unchanged = subst (Holds b) (sym (append-nil log)) v

    more :
        Holds
          (record b {
            segments = append_loop (length chunk) b.segments b.write_offset chunk;
            write_offset = b.write_offset + length chunk;
          })
          (log ++ chunk)
    more =
        (let (c, h) =
            append_loop_lem (length chunk) b.base_offset b.segments b.write_offset chunk v.chained
              (omega arith) in
          record {
            chained = c;
            kept =
                h
                ∙ ap (λ x. x ++ chunk) v.kept
                ∙ sym (
                    drop-append_le b.base_offset log chunk (
                      omega (
                        arith,
                        Chain-size b.base_offset b.segments b.write_offset v.chained,
                        v.written,
                      )));
            written = omega (arith, length-append log chunk, v.written);
          })

pub trim-Holds : (b : StreamBuffer) (log : Bytes) (n : ℕ) → Holds b log → Holds (trim b n) log
unfolding trim
trim-Holds b log n v =
    if_both (λ r. Holds r log) (nat_beq (search (length b.segments) (ends_after b.segments n)) 0)
      (λ t. v)
      (λ t.
        subst left_Holds (sym (search-passed b.base_offset b.segments b.write_offset n v.chained))
          left)
  where
    left_Holds : ℕ → Type 0
    left_Holds k =
        Holds
          (record b {
            segments = drop k b.segments;
            base_offset = start_of (drop k b.segments) b.write_offset;
          })
          log

    left : left_Holds (passed b.segments n)
    left =
        (let (c, h, p, q, r) = drop-passed b.base_offset b.segments b.write_offset n v.chained in
          let start = start_of (drop (passed b.segments n) b.segments) b.write_offset in
          record {
            chained = c;
            kept =
                h
                ∙ ap (drop (start - b.base_offset)) v.kept
                ∙ drop-drop b.base_offset (start - b.base_offset) log
                ∙ ap (λ k. drop k log) (omega arith);
            written = v.written;
          })

close-Holds :
    (b : StreamBuffer) (log : Bytes) (e : Option StreamError) → Holds b log → Holds (close b e) log
unfolding close
close-Holds b log e v =
    if_both (λ r. Holds r log) b.closed (λ t. v)
      (λ t. record { chained = v.chained; kept = v.kept; written = v.written })

pub step-Holds :
    (b : StreamBuffer) (log : Bytes) (c : Call) → Holds b log → Holds (step b c) (log ++ logged b c)
unfolding step logged
step-Holds b log (append_call chunk) v = append-Holds b log chunk v
step-Holds b log (trim_call n) v =
    subst (Holds (trim b n)) (sym (append-nil log)) (trim-Holds b log n v)
step-Holds b log (close_call e) v =
    subst (Holds (close b e)) (sym (append-nil log)) (close-Holds b log e v)

pub run-Holds :
    (b : StreamBuffer) (log : Bytes) (cs : List Call)
    → Holds b log
    → Holds (run b cs) (log ++ log_of b cs)
unfolding run log_of
run-Holds b log [] v = subst (Holds b) (sym (append-nil log)) v
run-Holds b log (c ∷ cs) v =
    subst (Holds (run (step b c) cs)) (append_assoc log (logged b c) (log_of (step b c) cs))
      (run-Holds (step b c) (log ++ logged b c) cs (step-Holds b log c v))

pub new-Holds : (m : ℤ) → Holds (new_stream_buffer m) []
unfolding new_stream_buffer Chain held
new-Holds m = record { chained = refl; kept = refl; written = refl }

-- A call of the buffer: it may add to the log, but not once the buffer is closed.
pub closed-step :
    (b : StreamBuffer) (c : Call) → b.closed ≡ true → ((step b c).closed ≡ true) × (logged b c ≡ [])
unfolding step logged stored_part append trim close
closed-step b (append_call chunk) e = ground arith
closed-step b (trim_call n) e = ground arith
closed-step b (close_call x) e = ground arith
