-- ===== src/Mux/Dispatch/Isolation.antt =====
-- What one frame can change at an edge: of the requests, only its own.
use accel_proxy.Mux.Stream.{Stream, close, new_stream, on_data, on_headers, on_window_update}
use accel_proxy.Mux.Client.{
  EdgeClientSession, Messages, PushRecvState, count_push, handle_control, handle_push_data,
  handle_push_rst, push_by, send, send_push_ack, set_push,
}
use accel_proxy.Mux.Dispatch.{
  dispatch, dispatch_known, dispatch_req_stream, handle_new_request, remove_req_stream, rst_frame,
  set_req_stream,
}
use accel_proxy.MuxHttp.Receive.{Ended, RecvBuffer, returns, waits, write}
use accel_proxy.Common.{
  Bool, Option-cases, ap, arith, bool_eq, false, inl, inr, length, nat_beq, nat_eq, none, pair_eq,
  refl, some, string_eq, ℕ, ◌+◌, ◌≡◌,
}
use accel_proxy.Common.Dict.{lookup, lookup-delete_ne, lookup-insert_ne}
use accel_proxy.Mux.Frame.{Frame}
use accel_proxy.Wire.{Bytes}

send-streams :
    (up : Bool) (s : EdgeClientSession) (f : Frame) → (send up s f).req_streams ≡ s.req_streams
unfolding send
send-streams up s f = ground arith

send_push_ack-streams :
    (m : Messages) (up : Bool) (s : EdgeClientSession) (st : PushRecvState)
    → (send_push_ack m up s st).req_streams ≡ s.req_streams
unfolding send_push_ack set_push send
send_push_ack-streams m up s st = ground arith

handle_control-streams :
    (m : Messages) (up : Bool) (s : EdgeClientSession) (f : Frame)
    → (handle_control m up s f).0.req_streams ≡ s.req_streams
unfolding handle_control send
handle_control-streams m up s f = ground arith

count_push-streams :
    (m : Messages) (up : Bool) (s : EdgeClientSession) (st : PushRecvState) (len : ℕ)
    (w : RecvBuffer × Ended Bytes)
    → (count_push m up s st len w).0.req_streams ≡ s.req_streams
unfolding count_push set_push
count_push-streams m up s st len (b, waits rest) = refl
count_push-streams m up s st len (b, returns rest (some e)) = refl
count_push-streams m up s st len (b, returns rest none) =
    let st' : PushRecvState = record st { buf = b; recv_offset = st.recv_offset + len } in
    ground (arith, send_push_ack-streams m up s st')

handle_push_data-streams :
    (m : Messages) (up : Bool) (s : EdgeClientSession) (f : Frame)
    → (handle_push_data m up s f).0.req_streams ≡ s.req_streams
unfolding handle_push_data
handle_push_data-streams m up s f = elim (Option-cases (push_by s f.stream_id)) [
  | inl e ↦ ground (arith, e)
  | inr (st, e) ↦
      ground (arith, e, count_push-streams m up s st (length f.payload) (write st.buf f.payload))
]

handle_push_rst-streams :
    (m : Messages) (s : EdgeClientSession) (f : Frame)
    → (handle_push_rst m s f).req_streams ≡ s.req_streams
unfolding handle_push_rst set_push
handle_push_rst-streams m s f = elim (Option-cases (push_by s f.stream_id)) [
  | inl e ↦ ground (arith, e)
  | inr (st, e) ↦ ground (arith, e)
]

module _ (m : Messages) (up : Bool) (s : EdgeClientSession) (f : Frame) (k : ℕ)
    (other : nat_beq f.stream_id k ≡ false) where
  handle_new_request-other :
      lookup k (handle_new_request m up s f).0.req_streams ≡ lookup k s.req_streams
  unfolding handle_new_request send set_req_stream remove_req_stream
  handle_new_request-other = ground (
    arith,
    send-streams up s (rst_frame m f.stream_id "no handler"),
    send-streams up s (rst_frame m f.stream_id "bad headers"),
    lookup-insert_ne f.stream_id k (on_headers m.json (new_stream f.stream_id) f).0 s.req_streams
        other,
    lookup-delete_ne f.stream_id k s.req_streams other,
  )

  dispatch_known-other :
      (st : Stream) → lookup k (dispatch_known m up s st f).0.req_streams ≡ lookup k s.req_streams
  unfolding dispatch_known send set_req_stream remove_req_stream
  dispatch_known-other st = ground (
    arith,
    lookup-insert_ne f.stream_id k (on_headers m.json st f).0 s.req_streams other,
    lookup-insert_ne f.stream_id k (close (on_headers m.json st f).0) s.req_streams other,
    lookup-insert_ne f.stream_id k (on_data st f).0 s.req_streams other,
    lookup-insert_ne f.stream_id k (on_window_update st f.payload) s.req_streams other,
    lookup-delete_ne f.stream_id k s.req_streams other,
  )

  dispatch_req_stream-other :
      lookup k (dispatch_req_stream m up s f).0.req_streams ≡ lookup k s.req_streams
  unfolding dispatch_req_stream
  dispatch_req_stream-other = elim (Option-cases (lookup f.stream_id s.req_streams)) [
    | inl e ↦ ground (arith, e)
    | inr (st, e) ↦ ground (arith, e, dispatch_known-other st)
  ]

  -- A frame that arrives at an edge, of whatever type, whether or not the connection takes the frames
  -- that answer it, leaves the request stream of every id but its own as it was, also where it ends the
  -- loop.
  pub dispatch-other : lookup k (dispatch m up s f).0.req_streams ≡ lookup k s.req_streams
  unfolding dispatch
  dispatch-other =
      let keep : (t : EdgeClientSession)
          → t.req_streams ≡ s.req_streams
          → lookup k t.req_streams ≡ lookup k s.req_streams =
        λ t e. ap (lookup k) e in
      ground (
        arith,
        keep (handle_control m up s f).0 (handle_control-streams m up s f),
        keep (handle_push_data m up s f).0 (handle_push_data-streams m up s f),
        keep (handle_push_rst m s f) (handle_push_rst-streams m s f),
        handle_new_request-other,
        dispatch_req_stream-other,
      )
