-- ===== src/MuxHttp/Sender/Rounds.antt =====
-- What a round of the sender does that sends a frame.
use accel_proxy.MuxHttp.Buffer.Calls.{Holds}
use accel_proxy.MuxHttp.Buffer.Log.{read-cases}
use accel_proxy.MuxHttp.Frame.{Frame}
use accel_proxy.Common.Int.{ltz, pos}
use accel_proxy.Common.{
  Bool, Option, [], arith, drop, false, if◌then◌else◌, inl, inr, length, none, refl, some, subst,
  take, true, ℕ, ◌+◌, ◌<◌, ◌≡◌, ◌≢◌, ◌≤◌,
}
use accel_proxy.MuxHttp.Sender.{
  Round, StreamSendState, data_frame, default_send_window, ends, eof_frame, idles, inflight, is_eof,
  passes, send_read, send_round, sends, stops, update_ack, wait_for_data, wait_window,
}
use accel_proxy.MuxHttp.Buffer.{
  StreamBuffer, StreamError, buffer_closed, closed_with, end_of_stream, offset_evicted, read,
}
use accel_proxy.MuxHttp.Messages.{Codec, RstMsg, data_chunk_size}
use accel_proxy.Wire.{Bytes}

-- The next chunk of the log.
unfoldable pub chunk_at : Bytes → ℕ → Bytes
chunk_at log offset = take data_chunk_size (drop offset log)

-- A round that sends anything has found room in the window, and gives what follows the read.
round_passes :
    (rst : Codec RstMsg) (b : StreamBuffer) (s s' : StreamSendState) (r : Round)
    → r ≢ idles
    → r ≢ stops
    → send_round rst b s false true ≡ (s', r)
    → (send_read rst s true (read b s.send_offset data_chunk_size) ≡ (s', r))
      × (ltz (inflight s) s.window ≡ true)
unfolding send_round wait_for_data wait_window
round_passes rst b s s' r p q e = ground arith

-- What the answer of a read makes the sender do, when it goes on.
send_read-sends :
    (rst : Codec RstMsg) (s s' : StreamSendState) (f : Frame) (out : Bytes) (e : Option StreamError)
    → send_read rst s true (out, e) ≡ (s', sends f)
    → (e ≡ none)
      × (0 < length out)
      × (s' ≡ record s { send_offset = s.send_offset + length out })
      × (f ≡ data_frame s out)
unfolding send_read
send_read-sends rst s s' f out none p = ground arith
send_read-sends rst s s' f out (some e) p = ground arith

-- And when it ends.
send_read-ends :
    (rst : Codec RstMsg) (s s' : StreamSendState) (f : Frame) (out : Bytes) (e : Option StreamError)
    → send_read rst s true (out, e) ≡ (s', ends f)
    → (e ≡ some end_of_stream) × (s' ≡ s) × (f ≡ eof_frame rst s)
unfolding send_read is_eof
send_read-ends rst s s' f out none p = ground arith
send_read-ends rst s s' f out (some end_of_stream) p = ground arith
send_read-ends rst s s' f out (some offset_evicted) p = ground arith
send_read-ends rst s s' f out (some buffer_closed) p = ground arith
send_read-ends rst s s' f out (some (closed_with why)) p = ground arith

module _ (rst : Codec RstMsg) (b : StreamBuffer) (log : Bytes) (s s' : StreamSendState) (f : Frame)
    (v : Holds b log) where
  -- A round that sends a DATA frame takes the next chunk of the log, and there was room in the
  -- window.
  pub round_sends :
      send_round rst b s false true ≡ (s', sends f)
      → (s' ≡ record s { send_offset = s.send_offset + length (chunk_at log s.send_offset) })
        × (f ≡ data_frame s (chunk_at log s.send_offset))
        × (s.send_offset < length log)
        × (ltz (inflight s) s.window ≡ true)
  unfolding chunk_at
  round_sends e =
      let (p, w) = round_passes rst b s s' (sends f) (λ t. cc) (λ t. cc) e in
      let answer : Bytes × Option StreamError → Type 0 =
        λ t. send_read rst s true t ≡ (s', sends f) in
      let out = chunk_at log s.send_offset in
      elim (read-cases b log s.send_offset data_chunk_size v) [
        | inl c ↦
            (let (x, l, y, z) = send_read-sends rst s s' f [] _ (subst answer c p) in
              absurd (omega arith))
        | inr (inl (h, c)) ↦
            (let (x, l, y, z) = send_read-sends rst s s' f [] _ (subst answer c p) in
              absurd (omega arith))
        | inr (inr (h, c)) ↦
            (let (x, l, y, z) = send_read-sends rst s s' f out none (subst answer c p) in
              (y, z, h, w))
      ]

  -- A round that sends the RST frame has come to the end of a closed buffer.
  pub round_ends :
      send_round rst b s false true ≡ (s', ends f)
      → (s' ≡ s) × (f ≡ eof_frame rst s) × (length log ≤ s.send_offset) × (b.closed ≡ true)
  unfolding chunk_at
  round_ends e =
      let (p, w) = round_passes rst b s s' (ends f) (λ t. cc) (λ t. cc) e in
      let answer : Bytes × Option StreamError → Type 0 =
        λ t. send_read rst s true t ≡ (s', ends f) in
      elim (read-cases b log s.send_offset data_chunk_size v) [
        | inl c ↦ (let (x, y, z) = send_read-ends rst s s' f [] _ (subst answer c p) in cc)
        | inr (inl (h, c)) ↦
            (let (x, y, z) = send_read-ends rst s s' f [] _ (subst answer c p) in
              (y, z, h, is_closed b.closed x))
        | inr (inr (h, c)) ↦
            (let (x, y, z) =
                send_read-ends rst s s' f (chunk_at log s.send_offset) none (subst answer c p) in
              cc)
      ]
    where
      is_closed :
          (c : Bool) → (if c then some b.close_err else none) ≡ some end_of_stream → c ≡ true
      is_closed true x = refl
      is_closed false x = cc

pub send_offset-update_ack :
    (s : StreamSendState) (offset : ℕ) → (update_ack s offset).send_offset ≡ s.send_offset
unfolding update_ack
send_offset-update_ack s offset = ground arith

pub window-update_ack : (s : StreamSendState) (offset : ℕ) → (update_ack s offset).window ≡ s.window
unfolding update_ack
window-update_ack s offset = ground arith

pub wait_window-none :
    (s : StreamSendState)
    → s.evicted ≡ false
    → s.window ≡ default_send_window
    → inflight s ≡ pos 0
    → wait_window s false ≡ passes
unfolding wait_window
wait_window-none s e w i = ground (arith, e, w, i)
