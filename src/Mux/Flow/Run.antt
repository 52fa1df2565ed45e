-- ===== src/Mux/Flow/Run.antt =====
-- Every step of the flow of a request body keeps its invariant.
use accel_proxy.Mux.Flow.Steps.{Ordered-next, delivers-Conserved, puts-Conserved, reads-Conserved}
use accel_proxy.Mux.Flow.Invariant.{
  Conserved, Ordered, granted_lem, length-payloads-cons, order_drops, payloads, released_lem,
}
use accel_proxy.Mux.Stream.Carrying.{IsRequestCredit, on_rst_keeps, on_window_update_request}
use accel_proxy.Mux.Frame.{Frame, flag_end_stream, has_end_stream}
use accel_proxy.Common.{
  All, List, [], ap, append-nil, arith, length, length-append, refl, subst, sym, true, ◌++◌, ◌∙◌,
  ◌∷◌, ◌≡◌,
}
use accel_proxy.Common.Int.{neg_part, pos_part}
use accel_proxy.Mux.Pipe.{IsValid}
use accel_proxy.Mux.Pipe.Contents.{contents}
use accel_proxy.Mux.Stream.{Stream, close, on_rst, on_window_update}
use accel_proxy.Mux.Stream.Reading.{updates_size}
use accel_proxy.Mux.Flow.{
  Link, Step, credits, data_frame, delivers, drops, finishes, reads, removes, resets, sends,
}
use accel_proxy.Wire.{uint32}

drops-Conserved :
    (l : Link) (f : Frame) (rest : List Frame)
    → l.removed ≡ true
    → l.wire ≡ f ∷ rest
    → Conserved l
    → Conserved (record l { wire = rest; dropped = l.dropped ++ f.payload })
unfolding Ordered payloads
drops-Conserved l f rest g e v =
    let j = length-payloads-cons l.wire rest f e in
    record {
      solvent = v.solvent;
      balance = omega (arith, v.balance, j, length-append l.dropped f.payload);
      small = v.small;
      credits_request = v.credits_request;
      in_request = v.in_request;
      valid = v.valid;
      whole_cap = v.whole_cap;
      ordered = (Ordered-next l.finished l.wire f rest e v.ordered).1;
      is_open = λ q. absurd (let x = sym g ∙ q in cc);
      not_dropped = λ q. absurd (let x = sym g ∙ q in cc);
      in_order =
          order_drops l.taken (contents l.receiver.req_body) l.dropped (payloads rest) f.payload
            v.in_order (ap payloads e);
    }

credits-Conserved :
    (l : Link) (f : Frame) (rest : List Frame)
    → l.updates ≡ f ∷ rest
    → Conserved l
    → Conserved (record l { sender = on_window_update l.sender f.payload; updates = rest })
unfolding updates_size
credits-Conserved l f rest e v =
    let u = ap updates_size e in
    let (first, more) = subst (All IsRequestCredit) e v.credits_request in
    let w = ap (λ s. s.send_window_req) (on_window_update_request l.sender f first) in
    let (z, b) =
      released_lem l.sender.send_window_req (uint32 f.payload 0) v.solvent
        (omega (arith, v.balance, u)) in
    record {
      solvent = ap neg_part w ∙ z;
      balance = omega (arith, b, ap pos_part w, v.balance, u);
      small = v.small;
      credits_request = more;
      in_request = v.in_request;
      valid = v.valid;
      whole_cap = v.whole_cap;
      ordered = v.ordered;
      is_open = v.is_open;
      not_dropped = v.not_dropped;
      in_order = v.in_order;
    }

-- The stream of the edge goes, with its body as it is or closed.
leaves-Conserved :
    (l : Link) (s : Stream)
    → contents s.req_body ≡ contents l.receiver.req_body
    → s.req_body.size ≡ l.receiver.req_body.size
    → s.req_body.cap ≡ l.receiver.req_body.cap
    → s.phase ≡ l.receiver.phase
    → IsValid s.req_body
    → Conserved l
    → Conserved (record l { receiver = s; removed = true })
leaves-Conserved l s c z k h w v = record {
  solvent = v.solvent;
  balance = omega (arith, v.balance, z);
  small = v.small;
  credits_request = v.credits_request;
  in_request = h ∙ v.in_request;
  valid = w;
  whole_cap = k ∙ v.whole_cap;
  ordered = v.ordered;
  is_open = λ q. absurd (cc);
  not_dropped = λ q. absurd (cc);
  in_order = v.in_order ∙ ap (λ x. l.taken ++ (x ++ (l.dropped ++ payloads l.wire))) (sym c);
}

pub Step-Conserved : {l m : Link} → Step l m → Conserved l → Conserved m
unfolding close has_end_stream
Step-Conserved (sends l chunk left d g p q e) v =
    let (z, b) =
      granted_lem l.sender.send_window_req left (length chunk) d l.sender.is_closed v.solvent e in
    puts-Conserved l left l.finished (data_frame l.sender.id chunk 0) g z b (λ t. absurd (cc)) v
Step-Conserved (finishes l g) v =
    let f = data_frame l.sender.id [] flag_end_stream in
    subst (λ b. Conserved (record l { finished = true; wire = l.wire ++ (f ∷ []); given = b }))
      (append-nil l.given)
      (puts-Conserved l l.sender.send_window_req true f g v.solvent (omega arith) (λ t. refl) v)
Step-Conserved (delivers l f rest g e) v = delivers-Conserved l f rest g e v
Step-Conserved (drops l f rest g e) v = drops-Conserved l f rest g e v
Step-Conserved (reads l n) v = reads-Conserved l n v
Step-Conserved (credits l f rest e) v = credits-Conserved l f rest e v
Step-Conserved (resets l reason) v =
    let (c, z, k, h, w) = on_rst_keeps l.receiver reason v.valid in
    leaves-Conserved l (on_rst l.receiver reason) c z k h w v
Step-Conserved (removes l) v = leaves-Conserved l (close l.receiver) refl refl refl refl v.valid v
