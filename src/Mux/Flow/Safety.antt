-- ===== src/Mux/Flow/Safety.antt =====
-- Credit is conserved, so the receiver's pipe never overflows; and no byte of a request is lost on
-- the way.
use accel_proxy.Mux.Flow.Invariant.{Conserved, acquire_enough, new_link-Conserved, payloads}
use accel_proxy.Mux.Flow.Steps.{next_data}
use accel_proxy.Mux.Flow.Run.{Step-Conserved}
use accel_proxy.Mux.Frame.{Frame, data_chunk_size}
use accel_proxy.Common.{List, [], ap, arith, false, length, none, ℕ, ◌++◌, ◌∷◌, ◌≡◌, ◌≤◌}
use accel_proxy.Common.Int.{pos, ℤ}
use accel_proxy.Mux.Pipe.Contents.{contents}
use accel_proxy.Mux.Stream.{acquire, granted, on_data}
use accel_proxy.Mux.Stream.Reading.{updates_size}
use accel_proxy.Mux.Flow.{Link, Reach, here, new_link, next}

Reach-Conserved : (id : ℕ) {l : Link} → Reach (new_link id) l → Conserved l
Reach-Conserved id here = new_link-Conserved id
Reach-Conserved id (next r t) = Step-Conserved t (Reach-Conserved id r)

-- For the body of a request on a connection that is up: however the steps of sender, network and
-- reader interleave, also where the body ends, the next DATA frame for a stream that the edge still has
-- finds room when it arrives. `OnData` never refuses one.
pub on_data-Reach :
    (id : ℕ) {l : Link} {f : Frame} {rest : List Frame}
    → Reach (new_link id) l
    → l.removed ≡ false
    → l.wire ≡ f ∷ rest
    → (on_data l.receiver f).1 ≡ none
on_data-Reach id {l = l} {f = f} {rest = rest} r g e =
    (next_data l f rest (Reach-Conserved id r) g e).0

-- At every moment of every run of a request body: what the sender has given is what the reader has
-- taken, then what is in the pipe of the body, then what was dropped, then the DATA frames under way.
-- Nothing is repeated or reordered, and as long as the edge has the stream nothing is lost.
pub given-Reach :
    (id : ℕ) {l : Link}
    → Reach (new_link id) l
    → (l.given ≡ l.taken ++ (contents l.receiver.req_body ++ (l.dropped ++ payloads l.wire)))
      × (l.removed ≡ false → l.dropped ≡ [])
given-Reach id r = let v = Reach-Conserved id r in (v.in_order, v.not_dropped)

-- The credit for the body of a request never runs dry for good, as long as the edge has the stream:
-- once all that was sent has been read and every announcement has arrived, `Acquire` grants any chunk
-- of at most the size of a DATA frame of the sender, although up to a batch of read bytes is never
-- announced.
pub acquire-Reach :
    (id : ℕ) {l : Link} (n : ℕ)
    → Reach (new_link id) l
    → l.removed ≡ false
    → l.wire ≡ []
    → l.updates ≡ []
    → l.receiver.req_body.size ≡ 0
    → n ≤ data_chunk_size
    → (left : ℤ) × (acquire l.sender.send_window_req (pos n) false false ≡ granted left)
unfolding payloads updates_size
acquire-Reach id {l = l} n r g w u z h =
    let v = Reach-Conserved id r in
    acquire_enough l.sender.send_window_req n v.solvent (
      omega (
        arith,
        v.balance,
        v.small,
        z,
        ap (λ x. length (payloads x)) w,
        ap updates_size u,
        ap length (v.not_dropped g),
      ))
