-- ===== src/Mux/Stream/Carrying.antt =====
-- The request body on its way into a stream, and the credit on its way back, as the dispatcher
-- hands them over: `OnData` in the request phase, and `OnWindowUpdate`.
use accel_proxy.Mux.Stream.{
  Stream, StreamError, WindowUpdateReader, body_pipe, close, count_read, end_stream, flush, on_data,
  on_rst, on_window_update, phase_request, release, set_body_pipe, to_int32, win_dir_request,
  win_update_payload_size, window_read, window_update, window_update_batch,
}
use accel_proxy.Common.{
  All, List, Option, String, [], append-nil, arith, false, get_or, if_both, if◌then◌else◌, is_some,
  length, ltb, none, not, refl, some, subst, sym, true, ℕ, ◌%◌, ◌++◌, ◌+◌, ◌-◌, ◌^◌, ◌||◌, ◌∙◌, ◌∷◌,
  ◌≡◌, ◌≤◌,
}
use accel_proxy.Common.Int.{ltz, pos, signed32}
use accel_proxy.Mux.Frame.{Frame, has_end_stream}
use accel_proxy.Mux.Pipe.{
  IsValid, Outcome, PipeError, StreamPipe, close_write, read, returns, stream_reset, waits,
  write_non_block,
}
use accel_proxy.Mux.Pipe.Contents.{close_write-contents, contents}
use accel_proxy.Wire.{Bytes, put_uint32, uint32}
use accel_proxy.Mux.Pipe.Steps.{write_non_block_open}

close_write_sizes :
    (p : StreamPipe) (e : Option PipeError)
    → ((close_write p e).size ≡ p.size) × ((close_write p e).cap ≡ p.cap)
unfolding close_write
close_write_sizes p e = ground arith

-- The body after the payload of a frame for which there is room.
stored : StreamPipe → Bytes → StreamPipe
stored p payload = if ltb 0 (length payload) then (write_non_block p payload).0 else p

stored_lem :
    (p : StreamPipe) (payload : Bytes)
    → IsValid p
    → p.closed ≡ false
    → length payload ≤ p.cap - p.size
    → (contents (stored p payload) ≡ contents p ++ payload)
      × ((stored p payload).size ≡ p.size + length payload)
      × ((stored p payload).cap ≡ p.cap)
      × ((stored p payload).closed ≡ false)
      × IsValid (stored p payload)
unfolding stored
stored_lem p [] v o r = (sym (append-nil (contents p)), omega arith, refl, o, v)
stored_lem p (x ∷ xs) v o r = ground (arith, write_non_block_open p (x ∷ xs) v o r)

accepted :
    (p : StreamPipe) (payload : Bytes)
    → IsValid p
    → p.closed ≡ false
    → length payload ≤ p.cap - p.size
    → (if ltb 0 (length payload) then (write_non_block p payload).2 else none) ≡ none
accepted p [] v o r = refl
accepted p (x ∷ xs) v o r = ground (arith, (write_non_block_open p (x ∷ xs) v o r).0)

on_data_request :
    (s : Stream) (f : Frame)
    → s.phase ≡ phase_request
    → (if ltb 0 (length f.payload) then (write_non_block s.req_body f.payload).2 else none) ≡ none
    → on_data s f ≡ (
      record s {
        req_body =
            (if has_end_stream f
              then close_write (stored s.req_body f.payload) none
              else stored s.req_body f.payload);
        phase = phase_request;
      },
      none,
    )
unfolding on_data body_pipe set_body_pipe end_stream to_int32 stored
on_data_request s f h e = ground (arith, h, e)

-- A DATA frame for which there is room goes to the body of the request, whole; the last one ends it.
pub on_data_open :
    (s : Stream) (f : Frame)
    → s.phase ≡ phase_request
    → IsValid s.req_body
    → s.req_body.closed ≡ false
    → length f.payload ≤ s.req_body.cap - s.req_body.size
    → let (s', e) = on_data s f in
      (e ≡ none)
      × (contents s'.req_body ≡ contents s.req_body ++ f.payload)
      × (s'.req_body.size ≡ s.req_body.size + length f.payload)
      × (s'.req_body.cap ≡ s.req_body.cap)
      × (s'.phase ≡ phase_request)
      × (has_end_stream f ≡ false → s'.req_body.closed ≡ false)
      × IsValid s'.req_body
on_data_open s f h v o r =
    let no_error : Option StreamError = none in
    let p = stored s.req_body f.payload in
    let (c, z, k, l, w) = stored_lem s.req_body f.payload v o r in
    let (d, keeps) = close_write-contents p none in
    let (y, t) = close_write_sizes p none in
    subst
      (λ (q : Stream × Option StreamError).
        (q.1 ≡ none)
        × (contents q.0.req_body ≡ contents s.req_body ++ f.payload)
        × (q.0.req_body.size ≡ s.req_body.size + length f.payload)
        × (q.0.req_body.cap ≡ s.req_body.cap)
        × (q.0.phase ≡ phase_request)
        × (has_end_stream f ≡ false → q.0.req_body.closed ≡ false)
        × IsValid q.0.req_body)
      (sym (on_data_request s f h (accepted s.req_body f.payload v o r)))
      (if_both
        (λ (b : StreamPipe).
          (no_error ≡ none)
          × (contents b ≡ contents s.req_body ++ f.payload)
          × (b.size ≡ s.req_body.size + length f.payload)
          × (b.cap ≡ s.req_body.cap)
          × (phase_request ≡ phase_request)
          × (has_end_stream f ≡ false → b.closed ≡ false)
          × IsValid b)
        (has_end_stream f)
        (λ u. (refl, d ∙ c, y ∙ z, t ∙ k, refl, (λ n. absurd (ground (arith, u, n))), keeps w))
        (λ u. (refl, c, z, k, refl, (λ n. l), w)))

-- `OnRST` closes the body, and leaves in it what is there.
pub on_rst_keeps :
    (s : Stream) (reason : String)
    → IsValid s.req_body
    → let s' = on_rst s reason in
      (contents s'.req_body ≡ contents s.req_body)
      × (s'.req_body.size ≡ s.req_body.size)
      × (s'.req_body.cap ≡ s.req_body.cap)
      × (s'.phase ≡ s.phase)
      × IsValid s'.req_body
unfolding on_rst close
on_rst_keeps s reason v =
    let e : Option PipeError = some (stream_reset reason) in
    let (c, k) = close_write-contents s.req_body e in
    let (z, t) = close_write_sizes s.req_body e in (c, z, t, refl, k v)

-- A WINDOW_UPDATE for the request direction, of the size that `OnWindowUpdate` asks for.
pub IsRequestCredit : Frame → Type 0
IsRequestCredit f =
    (ltb (length f.payload) win_update_payload_size ≡ false)
    × (get_or f.payload 4 0 ≡ win_dir_request)

pub on_window_update_request :
    (s : Stream) (f : Frame)
    → IsRequestCredit f
    → on_window_update s f.payload
      ≡ record s { send_window_req = release s.send_window_req (signed32 (uint32 f.payload 0)) }
unfolding on_window_update IsRequestCredit
on_window_update_request s f (l, d) = ground (arith, l, d)

flush-IsRequestCredit :
    (r : WindowUpdateReader) → r.dir ≡ win_dir_request → All IsRequestCredit (flush true r).1
unfolding flush window_update IsRequestCredit put_uint32
flush-IsRequestCredit r d =
    if_both (λ (q : WindowUpdateReader × List Frame). All IsRequestCredit q.1)
      (ltz (pos 0) (signed32 r.pending_inc)) (λ t. ((refl, omega (arith, d)), tt)) (λ t. tt)

-- What `WindowUpdateReader.Read` sends for the body of a request.
pub window_read-IsRequestCredit :
    (r : WindowUpdateReader) (n : ℕ)
    → r.dir ≡ win_dir_request
    → All IsRequestCredit (window_read true r n).2
unfolding window_read count_read
window_read-IsRequestCredit r n d = sent (read r.pipe n).1
  where
    from : WindowUpdateReader
    from = record r { pipe = (read r.pipe n).0 }

    sent : (o : Outcome Bytes) → All IsRequestCredit (count_read true from o).2
    sent (waits out) = tt
    sent (returns out e) =
        let after : WindowUpdateReader = record from {
          pending_inc = (r.pending_inc + length out) % 2 ^ 32;
        } in
        if_both (λ (q : WindowUpdateReader × Outcome Bytes × List Frame). All IsRequestCredit q.2)
          (ltb 0 (length out))
          (λ t.
            if_both (λ (q : WindowUpdateReader × List Frame). All IsRequestCredit q.1)
              (not (ltz (signed32 after.pending_inc) (pos window_update_batch)) || is_some e)
              (λ u. flush-IsRequestCredit after d) (λ u. tt))
          (λ t. tt)
