-- ===== src/Mux/Flow/Steps.antt =====
-- The way of a request body to the reader keeps the invariant of its flow.
use accel_proxy.Mux.Flow.Invariant.{
  Conserved, Ordered, Ordered-snoc, length-payloads-cons, length-payloads-snoc, order_delivers,
  order_reads, order_sends, payloads, payloads-snoc,
}
use accel_proxy.Mux.Stream.Carrying.{IsRequestCredit, on_data_open, window_read-IsRequestCredit}
use accel_proxy.Mux.Frame.{Frame, has_end_stream}
use accel_proxy.Common.{
  All-join, Bool, Bool-cases, List, [], ap, arith, false, inl, inr, length, none, refl, subst, sym,
  true, ℕ, ◌++◌, ◌+◌, ◌∙◌, ◌∷◌, ◌≡◌, ◌⊎◌,
}
use accel_proxy.Common.Int.{neg_part, pos_part, ℤ}
use accel_proxy.Mux.Pipe.{IsValid, read}
use accel_proxy.Mux.Pipe.Contents.{contents}
use accel_proxy.Mux.Stream.{on_data, phase_request}
use accel_proxy.Mux.Stream.Reading.{updates_size-append, window_read_lem}
use accel_proxy.Mux.Flow.{Link, body_read, req_body_reader}
use accel_proxy.Mux.Pipe.Steps.{bytes_of, read_any}

-- With END_STREAM not yet sent, the pipe is open; and it is as long as a frame is under way.
open_ahead :
    (l : Link) (f : Frame) (rest : List Frame)
    → Conserved l
    → l.removed ≡ false
    → l.wire ≡ f ∷ rest
    → l.receiver.req_body.closed ≡ false
open_ahead l f rest v g e = still (v.is_open g)
  where
    still :
        (l.receiver.req_body.closed ≡ false) ⊎ ((l.wire ≡ []) × (l.finished ≡ true))
        → l.receiver.req_body.closed ≡ false
    still (inl o) = o
    still (inr (n, h)) = absurd (let q = sym e ∙ n in cc)

-- What `OnData` makes of the next frame.
pub next_data :
    (l : Link) (f : Frame) (rest : List Frame)
    → Conserved l
    → l.removed ≡ false
    → l.wire ≡ f ∷ rest
    → let (s', e) = on_data l.receiver f in
      (e ≡ none)
      × (contents s'.req_body ≡ contents l.receiver.req_body ++ f.payload)
      × (s'.req_body.size ≡ l.receiver.req_body.size + length f.payload)
      × (s'.req_body.cap ≡ l.receiver.req_body.cap)
      × (s'.phase ≡ phase_request)
      × (has_end_stream f ≡ false → s'.req_body.closed ≡ false)
      × IsValid s'.req_body
next_data l f rest v g e =
    on_data_open l.receiver f v.in_request v.valid (open_ahead l f rest v g e)
      (omega (arith, v.balance, v.whole_cap, length-payloads-cons l.wire rest f e))

pub Ordered-next :
    (finished : Bool) (w : List Frame) (f : Frame) (rest : List Frame)
    → w ≡ f ∷ rest
    → Ordered finished w
    → Ordered finished (f ∷ rest)
Ordered-next finished w f rest e o = subst (Ordered finished) e o

pub delivers-Conserved :
    (l : Link) (f : Frame) (rest : List Frame)
    → l.removed ≡ false
    → l.wire ≡ f ∷ rest
    → Conserved l
    → Conserved (record l { wire = rest; receiver = (on_data l.receiver f).0 })
unfolding Ordered payloads
delivers-Conserved l f rest g e v =
    let j = length-payloads-cons l.wire rest f e in
    let (n, c, s, k, h, o, w) = next_data l f rest v g e in
    let (last, more) = Ordered-next l.finished l.wire f rest e v.ordered in
    record {
      solvent = v.solvent;
      balance = omega (arith, v.balance, s, j);
      small = v.small;
      credits_request = v.credits_request;
      in_request = h;
      valid = w;
      whole_cap = k ∙ v.whole_cap;
      ordered = more;
      is_open =
          λ q. elim (Bool-cases (has_end_stream f)) [ inl t ↦ inr (last t) | inr t ↦ inl (o t) ];
      not_dropped = v.not_dropped;
      in_order =
          order_delivers l.taken (contents l.receiver.req_body)
            (contents (on_data l.receiver f).0.req_body) (payloads rest) f.payload v.in_order
            (v.not_dropped g) (ap payloads e) c;
    }

pub reads-Conserved :
    (l : Link) (n : ℕ)
    → Conserved l
    → Conserved (record l {
      receiver = record (l.receiver) { req_body = (body_read l n).0.pipe };
      pending_inc = (body_read l n).0.pending_inc;
      updates = l.updates ++ (body_read l n).2;
      taken = l.taken ++ bytes_of (body_read l n).1;
    })
reads-Conserved l n v =
    let r = req_body_reader l.receiver l.pending_inc in
    let (c, s, k, o, w) = read_any l.receiver.req_body n v.valid in
    let (p, b, q, t) = window_read_lem r n v.small (omega (arith, s, v.balance)) in
    record {
      solvent = v.solvent;
      balance = omega (
        arith,
        v.balance,
        s,
        q,
        ap (λ o. length (bytes_of o)) b,
        ap (λ x. x.size) p,
        updates_size-append l.updates (body_read l n).2,
      );
      small = t;
      credits_request =
          All-join IsRequestCredit l.updates (body_read l n).2 v.credits_request
            (window_read-IsRequestCredit r n refl);
      in_request = v.in_request;
      valid = subst IsValid (sym p) w;
      whole_cap = ap (λ x. x.cap) p ∙ k ∙ v.whole_cap;
      ordered = v.ordered;
      is_open = λ g. opened (v.is_open g);
      not_dropped = v.not_dropped;
      in_order =
          order_reads l.taken (contents (body_read l n).0.pipe) (l.dropped ++ payloads l.wire)
            (bytes_of (read l.receiver.req_body n).1) v.in_order
            (c ∙ ap (λ x. bytes_of (read l.receiver.req_body n).1 ++ contents x) (sym p))
            (ap bytes_of b);
    }
  where
    opened :
        (l.receiver.req_body.closed ≡ false) ⊎ ((l.wire ≡ []) × (l.finished ≡ true))
        → ((body_read l n).0.pipe.closed ≡ false) ⊎ ((l.wire ≡ []) × (l.finished ≡ true))
    opened (inl h) =
        let (c, s, k, o, w) = read_any l.receiver.req_body n v.valid in
        let (p, b, q, t) =
          window_read_lem (req_body_reader l.receiver l.pending_inc) n v.small
            (omega (arith, s, v.balance)) in
        inl (ap (λ x. x.closed) p ∙ o ∙ h)
    opened (inr h) = inr h

-- A frame goes on the wire.
pub puts-Conserved :
    (l : Link) (left : ℤ) (finished : Bool) (f : Frame)
    → l.finished ≡ false
    → neg_part left ≡ 0
    → pos_part left + length f.payload ≡ pos_part l.sender.send_window_req
    → (has_end_stream f ≡ true → finished ≡ true)
    → Conserved l
    → Conserved (record l {
      sender = record (l.sender) { send_window_req = left };
      finished = finished;
      wire = l.wire ++ (f ∷ []);
      given = l.given ++ f.payload;
    })
unfolding Ordered
puts-Conserved l left finished f g z b h v = record {
  solvent = z;
  balance = omega (arith, length-payloads-snoc l.wire f, b, v.balance);
  small = v.small;
  credits_request = v.credits_request;
  in_request = v.in_request;
  valid = v.valid;
  whole_cap = v.whole_cap;
  ordered = Ordered-snoc finished l.wire f (subst (λ x. Ordered x l.wire) g v.ordered) h;
  is_open = λ q. inl (opened (v.is_open q));
  not_dropped = v.not_dropped;
  in_order =
      order_sends l.taken (contents l.receiver.req_body) l.dropped (payloads l.wire) f.payload
        v.in_order (payloads-snoc l.wire f);
}
  where
    opened :
        (l.receiver.req_body.closed ≡ false) ⊎ ((l.wire ≡ []) × (l.finished ≡ true))
        → l.receiver.req_body.closed ≡ false
    opened (inl o) = o
    opened (inr (n, t)) = absurd (let q = sym g ∙ t in cc)
