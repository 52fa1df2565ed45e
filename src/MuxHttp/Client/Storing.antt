-- ===== src/MuxHttp/Client/Storing.antt =====
-- What one go of the write of a payload does to the receiving side of a stream.
use accel_proxy.MuxHttp.Receive.{Ended, RecvBuffer, returns, waits, write}
use accel_proxy.MuxHttp.Client.{
  Handling, StreamRecvState, ack_every_bytes, ack_frame, count_data, done, dropped, flush_ack,
  receive_data, send_ack, send_ack_with_conn, writing,
}
use accel_proxy.MuxHttp.Receive.Contents.{IsRecv, waiting, write_lem}
use accel_proxy.MuxHttp.Receive.Passing.{write_closed}
use accel_proxy.MuxHttp.Messages.{AckMsg, Codec}
use accel_proxy.Common.{
  Bool, List, [], ap, append-nil, append_assoc, arith, drop, false, if_both, inl, inr, leb, length,
  ltb, min, none, refl, some, subst, sym, take, take-append-drop, take_all, true, ℕ, ◌++◌, ◌+◌, ◌-◌,
  ◌∙◌, ◌∷◌, ◌≡◌, ◌≢◌, ◌≤◌, ◌⊎◌,
}
use accel_proxy.Wire.{Bytes}
use accel_proxy.MuxHttp.Frame.{Frame}

-- The bytes of a payload that its write has not stored yet, and the length of the payload.
unfoldable pub unwritten : Handling → Bytes
unwritten (writing rest len) = rest
unwritten dropped = []
unwritten done = []

unfoldable pub in_hand : Handling → ℕ
in_hand (writing rest len) = len
in_hand dropped = 0
in_hand done = 0

-- Nothing is lost and nothing is dropped, and the count of the bytes received goes up by the payload
-- when all of it is stored.
unfoldable pub Stores :
    StreamRecvState → Bytes → ℕ → StreamRecvState × Handling × List Frame → Type 0
Stores st rest len (st', how, frames) =
    IsRecv st'.buf
    × (st'.buf.closed ≡ false)
    × (waiting st'.buf ++ unwritten how ≡ waiting st.buf ++ rest)
    × (st'.recv_offset + in_hand how ≡ st.recv_offset + len)
    × (how ≢ dropped)

module _ (ack : Codec AckMsg) (connected : Bool) (st : StreamRecvState) (rest : Bytes)
    (len : ℕ) where
  done-Stores :
      (b : RecvBuffer)
      → IsRecv b
      → b.closed ≡ false
      → waiting b ≡ waiting st.buf ++ rest
      → Stores st rest len (count_data ack connected st len (b, returns [] none))
  unfolding count_data unwritten in_hand Stores send_ack send_ack_with_conn
  done-Stores b v c e =
      if_both (Stores st rest len) (leb (st.acked_offset + ack_every_bytes) (st.recv_offset + len))
        (λ t.
          if_both (λ (r : StreamRecvState × List Frame). Stores st rest len (r.0, done, r.1))
            connected (λ u. stored) (λ u. stored))
        (λ t. stored)
    where
      stored :
          IsRecv b
          × (b.closed ≡ false)
          × (waiting b ++ [] ≡ waiting st.buf ++ rest)
          × (st.recv_offset + len + 0 ≡ st.recv_offset + len)
          × (done ≢ dropped)
      stored = (v, c, append-nil (waiting b) ∙ e, omega arith, λ t. cc)

  -- One go of the write of `handleData` into an open buffer.
  pub receive_data-Stores :
      IsRecv st.buf
      → st.buf.closed ≡ false
      → Stores st rest len (receive_data ack connected st rest len)
  unfolding receive_data count_data Stores unwritten in_hand
  receive_data-Stores v c =
      let (w, s, o) = write_lem st.buf rest v c in
      let b = (write st.buf rest).0 in
      let q : b.closed ≡ false = write_closed st.buf rest ∙ c in
      subst (λ t. Stores st rest len (count_data ack connected st len (b, t))) (sym o)
        (if_both (λ t. Stores st rest len (count_data ack connected st len (b, t)))
          (ltb k (length rest))
          (λ t. (
            w,
            q,
            ap (λ t. t ++ drop k rest) s
                ∙ append_assoc (waiting st.buf) (take k rest) (drop k rest)
                ∙ ap (λ t. waiting st.buf ++ t) (take-append-drop k rest),
            refl,
            λ t. cc,
          ))
          (λ t.
            (let h : length rest ≤ k = ground arith in
              done-Stores b w q (s ∙ ap (λ t. waiting st.buf ++ t) (take_all k rest h)))))
    where
      k : ℕ
      k = min (length rest) (st.buf.cap - st.buf.size)

-- A step of the receiving side counts bytes and may send one ACK frame, with the count.
unfoldable pub Counts : Codec AckMsg → StreamRecvState → StreamRecvState × List Frame → Type 0
Counts ack st (st', frames) =
    (st.recv_offset ≤ st'.recv_offset)
    × (((frames ≡ []) × (st'.acked_offset ≡ st.acked_offset))
        ⊎ ((o : StreamRecvState) × (frames ≡ ack_frame ack o ∷ [])
            × (o.recv_offset ≡ st'.recv_offset)
            × (st'.acked_offset ≡ st'.recv_offset)))

module _ (ack : Codec AckMsg) (st : StreamRecvState) where
  send_ack-Counts :
      (connected : Bool) (o : StreamRecvState)
      → st.recv_offset ≤ o.recv_offset
      → o.acked_offset ≡ st.acked_offset
      → Counts ack st (send_ack ack connected o)
  unfolding Counts send_ack send_ack_with_conn
  send_ack-Counts true o p q = (p, inr (o, refl, refl, refl))
  send_ack-Counts false o p q = (p, inl (refl, q))

  pub flush_ack-Counts : Counts ack st (flush_ack ack st)
  unfolding Counts flush_ack send_ack_with_conn
  flush_ack-Counts =
      if_both (Counts ack st) (ltb st.acked_offset st.recv_offset)
        (λ t. (omega arith, inr (st, refl, refl, refl))) (λ t. (omega arith, inl (refl, refl)))

  pub receive_data-Counts :
      (connected : Bool) (rest : Bytes) (len : ℕ)
      → let (st', how, frames) = receive_data ack connected st rest len in
        Counts ack st (st', frames)
  unfolding receive_data count_data Counts
  receive_data-Counts connected rest len = counted (write st.buf rest)
    where
      counted :
          (r : RecvBuffer × Ended Bytes)
          → let (st', how, frames) = count_data ack connected st len r in
            Counts ack st (st', frames)
      counted (b, waits more) = (omega arith, inl (refl, refl))
      counted (b, returns more (some e)) = (omega arith, inl (refl, refl))
      counted (b, returns more none) =
          if_both (λ (t : StreamRecvState × Handling × List Frame). Counts ack st (t.0, t.2))
            (leb (st.acked_offset + ack_every_bytes) (st.recv_offset + len))
            (λ t.
              send_ack-Counts connected (record st { buf = b; recv_offset = st.recv_offset + len })
                (omega arith) refl)
            (λ t. (omega arith, inl (refl, refl)))
