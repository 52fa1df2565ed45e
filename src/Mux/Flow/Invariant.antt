-- ===== src/Mux/Flow/Invariant.antt =====
-- What every step of the flow of a request body keeps: the credit adds up, and the bytes are in order.
use accel_proxy.Mux.Stream.Carrying.{IsRequestCredit}
use accel_proxy.Mux.Frame.{Frame, has_end_stream}
use accel_proxy.Common.{
  All, Bool, List, [], ap, append-nil, append_assoc, ap₂, arith, false, inl, length, length-append,
  refl, sym, true, ℕ, ◌++◌, ◌+◌, ◌<◌, ◌^◌, ◌∙◌, ◌∷◌, ◌≡◌, ◌≤◌, ◌⊎◌,
}
use accel_proxy.Common.Int.{neg_part, negsuc, pos, pos_part, signed32, ℤ, ◌-ℤ◌}
use accel_proxy.Mux.Pipe.{IsValid, new_stream_pipe}
use accel_proxy.Mux.Pipe.Contents.{contents}
use accel_proxy.Mux.Pipe.Fifo.{new_stream_pipe_lem}
use accel_proxy.Mux.Stream.{
  acquire, granted, new_stream, phase_request, pipe_buf_size, release, window_update_batch,
}
use accel_proxy.Mux.Stream.Reading.{updates_size}
use accel_proxy.Mux.Flow.{Link, new_link}
use accel_proxy.Wire.{Bytes}

unfoldable pub payloads : List Frame → Bytes
payloads [] = []
payloads (f ∷ fs) = f.payload ++ payloads fs

pub payloads-snoc :
    (fs : List Frame) (f : Frame) → payloads (fs ++ (f ∷ [])) ≡ payloads fs ++ f.payload
unfolding payloads
payloads-snoc [] f = append-nil f.payload
payloads-snoc (g ∷ fs) f =
    ap (λ t. g.payload ++ t) (payloads-snoc fs f)
    ∙ sym (append_assoc g.payload (payloads fs) f.payload)

pub length-payloads-snoc :
    (fs : List Frame) (f : Frame)
    → length (payloads (fs ++ (f ∷ []))) ≡ length (payloads fs) + length f.payload
length-payloads-snoc fs f = ap length (payloads-snoc fs f) ∙ length-append (payloads fs) f.payload

pub length-payloads-cons :
    (w fs : List Frame) (f : Frame)
    → w ≡ f ∷ fs
    → length (payloads w) ≡ length f.payload + length (payloads fs)
unfolding payloads
length-payloads-cons w fs f e =
    ap (λ v. length (payloads v)) e ∙ length-append f.payload (payloads fs)

-- END_STREAM is on the last frame only, once the sender has finished.
unfoldable pub Ordered : Bool → List Frame → Type 0
Ordered finished [] = Unit
Ordered finished (f ∷ fs) =
    (has_end_stream f ≡ true → (fs ≡ []) × (finished ≡ true)) × Ordered finished fs

pub Ordered-snoc :
    (finished : Bool) (fs : List Frame) (f : Frame)
    → Ordered false fs
    → (has_end_stream f ≡ true → finished ≡ true)
    → Ordered finished (fs ++ (f ∷ []))
unfolding Ordered
Ordered-snoc finished [] f h k = ((λ t. (refl, k t)), tt)
Ordered-snoc finished (g ∷ fs) f (h, more) k =
    ((λ t. absurd (let x = (h t).1 in cc)), Ordered-snoc finished fs f more k)

-- Every byte of the window is credit, or under way, or in the pipe, or dropped, or read and not yet
-- announced, or announced and under way back; and what was sent is what was read, and the pipe, and
-- what was dropped, and the wire.
pub record Conserved (l : Link) : Type 0 where
  pub solvent : neg_part l.sender.send_window_req ≡ 0
  pub balance :
      pos_part l.sender.send_window_req
        + length (payloads l.wire)
        + l.receiver.req_body.size
        + length l.dropped
        + l.pending_inc
        + updates_size l.updates
      ≡ pipe_buf_size
  pub small : l.pending_inc < window_update_batch
  pub credits_request : All IsRequestCredit l.updates
  pub in_request : l.receiver.phase ≡ phase_request
  pub valid : IsValid l.receiver.req_body
  pub whole_cap : l.receiver.req_body.cap ≡ pipe_buf_size
  pub ordered : Ordered l.finished l.wire
  pub is_open :
      l.removed ≡ false
      → (l.receiver.req_body.closed ≡ false) ⊎ ((l.wire ≡ []) × (l.finished ≡ true))
  pub not_dropped : l.removed ≡ false → l.dropped ≡ []
  pub in_order :
      l.given ≡ l.taken ++ (contents l.receiver.req_body ++ (l.dropped ++ payloads l.wire))

pub granted_lem :
    (avail left : ℤ) (n : ℕ) (d c : Bool)
    → neg_part avail ≡ 0
    → acquire avail (pos n) d c ≡ granted left
    → (neg_part left ≡ 0) × (pos_part left + n ≡ pos_part avail)
unfolding acquire
granted_lem (pos a) left n d c z e = ground arith
granted_lem (negsuc a) left n d c z e = absurd (omega arith)

pub acquire_enough :
    (avail : ℤ) (n : ℕ)
    → neg_part avail ≡ 0
    → n ≤ pos_part avail
    → (left : ℤ) × (acquire avail (pos n) false false ≡ granted left)
unfolding acquire
acquire_enough (pos a) n z h = (pos a -ℤ pos n, ground arith)
acquire_enough (negsuc a) n z h = absurd (omega arith)

pub released_lem :
    (avail : ℤ) (w : ℕ)
    → neg_part avail ≡ 0
    → w < 2 ^ 31
    → let a = release avail (signed32 w) in (neg_part a ≡ 0) × (pos_part a ≡ pos_part avail + w)
unfolding release
released_lem (pos a) w z h = ground arith
released_lem (negsuc a) w z h = absurd (omega arith)

pub new_link-Conserved : (id : ℕ) → Conserved (new_link id)
unfolding payloads updates_size new_stream_pipe new_stream new_link Ordered
new_link-Conserved id = record {
  solvent = refl;
  balance = omega arith;
  small = omega arith;
  credits_request = tt;
  in_request = refl;
  valid = (new_stream_pipe_lem (pos pipe_buf_size)).0;
  whole_cap = refl;
  ordered = tt;
  is_open = λ h. inl refl;
  not_dropped = λ h. refl;
  in_order = sym (
      append-nil (contents (new_stream_pipe (pos pipe_buf_size)))
      ∙ ap (λ q. q.bytes) (new_stream_pipe_lem (pos pipe_buf_size)).1);
}

pub order_sends :
    {g jw : Bytes} (t c d j chunk : Bytes)
    → g ≡ t ++ (c ++ (d ++ j))
    → jw ≡ j ++ chunk
    → g ++ chunk ≡ t ++ (c ++ (d ++ jw))
order_sends t c d j chunk e f =
    ap (λ x. x ++ chunk) e
    ∙ append_assoc t (c ++ (d ++ j)) chunk
    ∙ ap (λ x. t ++ x)
        (append_assoc c (d ++ j) chunk
          ∙ ap (λ x. c ++ x) (append_assoc d j chunk ∙ ap (λ x. d ++ x) (sym f)))

pub order_delivers :
    {g d jw : Bytes} (t c c' j chunk : Bytes)
    → g ≡ t ++ (c ++ (d ++ jw))
    → d ≡ []
    → jw ≡ chunk ++ j
    → c' ≡ c ++ chunk
    → g ≡ t ++ (c' ++ (d ++ j))
order_delivers t c c' j chunk e n f h =
    e
    ∙ ap₂ (λ x y. t ++ (c ++ (x ++ y))) n f
    ∙ ap (λ x. t ++ x) (sym (append_assoc c chunk j) ∙ ap (λ x. x ++ j) (sym h))
    ∙ ap (λ x. t ++ (c' ++ (x ++ j))) (sym n)

pub order_drops :
    {g jw : Bytes} (t c d j chunk : Bytes)
    → g ≡ t ++ (c ++ (d ++ jw))
    → jw ≡ chunk ++ j
    → g ≡ t ++ (c ++ ((d ++ chunk) ++ j))
order_drops t c d j chunk e f =
    e ∙ ap (λ x. t ++ (c ++ x)) (ap (λ x. d ++ x) f ∙ sym (append_assoc d chunk j))

pub order_reads :
    {g c b' : Bytes} (t c' j b : Bytes)
    → g ≡ t ++ (c ++ j)
    → c ≡ b ++ c'
    → b' ≡ b
    → g ≡ (t ++ b') ++ (c' ++ j)
order_reads t c' j b e f h =
    e
    ∙ ap (λ x. t ++ x) (ap (λ x. x ++ j) f ∙ append_assoc b c' j)
    ∙ sym (append_assoc t b (c' ++ j))
    ∙ ap (λ x. (t ++ x) ++ (c' ++ j)) (sym h)
