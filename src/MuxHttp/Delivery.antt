-- ===== src/MuxHttp/Delivery.antt =====
-- One push stream from `Push` to the consumer at an edge: the origin's calls of the buffer, the loop
-- of `startSender`, the frames under way, `handleData` and `handleRST` at the edge, its consumer, the
-- acknowledgements, and the loss of the connection, after which the edge registers again. The run is
-- that of one entry of the registry: an edge that registers after `trimAll` has removed the entry gets
-- a fresh stream of the same name from `GetOrCreate`, at its old offset, and is no longer in this run.
pub mod Invariant
pub mod Sending
pub mod Receiving
pub mod Renewing
pub mod Safety
pub mod Acks
pub mod Window
mod Examples
use accel_proxy.MuxHttp.Receive.{reopen}
use accel_proxy.MuxHttp.Receive.Passing.{bytes_read}
use accel_proxy.Common.Int.{ℤ}
use accel_proxy.Common.{Bool, List, [], false, length, some, true, ℕ, ◌++◌, ◌∷◌, ◌≡◌}
use accel_proxy.MuxHttp.Buffer.{StreamBuffer, new_stream_buffer}
use accel_proxy.MuxHttp.Buffer.Calls.{Call, logged, step}
use accel_proxy.MuxHttp.Frame.{Frame}
use accel_proxy.MuxHttp.Messages.{AckMsg, Codec, RstMsg, type_data, type_rst}
use accel_proxy.MuxHttp.Registry.{StreamEntry}
use accel_proxy.MuxHttp.Sender.{
  StreamSendState, ends, new_stream_send_state, send_round, sends, start_sender, update_ack,
}
use accel_proxy.MuxHttp.Client.{
  Handling, StreamRecvState, done, dropped, flush_ack, new_stream_recv_state, receive_data,
  receive_rst, writing,
}
use accel_proxy.MuxHttp.Receive.{read as recv_read}
use accel_proxy.Wire.{Bytes}

pub record Delivery : Type 0 where
  pub buffer : StreamBuffer
  -- the chunks that the buffer has accepted
  pub log : Bytes
  -- whether the registry has the entry, so that `GetOrCreate` finds it by its name
  pub registered : Bool
  pub sender : StreamSendState
  -- whether the loop of the sender runs
  pub sending : Bool
  -- frames under way to the edge, oldest first
  pub wire : List Frame
  pub receiver : StreamRecvState
  -- the frame in the hands of the edge's read loop
  pub handling : Handling
  -- ACK frames under way to the server, oldest first
  pub acks : List Frame
  -- all that the consumer has read
  pub taken : Bytes

-- Whether the read loop is between two frames.
unfoldable pub idle : Handling → Bool
idle (writing rest len) = false
idle dropped = true
idle done = true

unfoldable pub new_delivery : ℤ → StreamEntry → Delivery
new_delivery max_retain entry = record {
  buffer = new_stream_buffer max_retain;
  log = [];
  registered = true;
  sender = new_stream_send_state entry;
  sending = true;
  wire = [];
  receiver = record (new_stream_recv_state entry.name) { id = entry.id };
  handling = done;
  acks = [];
  taken = [];
}

module _ (ack : Codec AckMsg) (rst : Codec RstMsg) where
  pub data Step : Delivery → Delivery → Type 0 where
    -- `Append`, `Close` or `Trim` of the buffer, at any offset
    calls :
        (d : Delivery) (c : Call)
        → Step d (record d { buffer = step d.buffer c; log = d.log ++ logged d.buffer c })
    -- a round of the sender that puts a DATA frame on the wire
    sends_data :
        (d : Delivery) (s : StreamSendState) (f : Frame)
        → d.sending ≡ true
        → send_round rst d.buffer d.sender false true ≡ (s, sends f)
        → Step d (record d { sender = s; wire = d.wire ++ (f ∷ []) })
    -- the round that puts the RST frame on the wire
    sends_end :
        (d : Delivery) (s : StreamSendState) (f : Frame)
        → d.sending ≡ true
        → send_round rst d.buffer d.sender false true ≡ (s, ends f)
        → Step d (record d { sender = s; sending = false; wire = d.wire ++ (f ∷ []) })
    -- the read loop of the edge starts to write a payload
    receives :
        (d : Delivery) (f : Frame) (rest : List Frame)
        → idle d.handling ≡ true
        → d.wire ≡ f ∷ rest
        → f.frame_type ≡ type_data
        → Step d (record d { wire = rest; handling = writing f.payload (length f.payload) })
    -- the write stores what there is room for
    writes :
        (d : Delivery) (left : Bytes) (len : ℕ)
        → d.handling ≡ writing left len
        → Step d (record d {
          receiver = (receive_data ack true d.receiver left len).0;
          handling = (receive_data ack true d.receiver left len).1;
          acks = d.acks ++ (receive_data ack true d.receiver left len).2;
        })
    resets :
        (d : Delivery) (f : Frame) (rest : List Frame) (msg : RstMsg)
        → idle d.handling ≡ true
        → d.wire ≡ f ∷ rest
        → f.frame_type ≡ type_rst
        → rst.unmarshal f.payload ≡ some msg
        → Step d (record d { wire = rest; receiver = receive_rst d.receiver msg })
    -- the consumer reads up to `n` bytes
    reads :
        (d : Delivery) (n : ℕ)
        → Step d (record d {
          receiver = record (d.receiver) { buf = (recv_read d.receiver.buf n).0 };
          taken = d.taken ++ bytes_read (recv_read d.receiver.buf n).1;
        })
    -- the timer of the edge
    flushes :
        (d : Delivery)
        → Step d (record d {
          receiver = (flush_ack ack d.receiver).0;
          acks = d.acks ++ (flush_ack ack d.receiver).1;
        })
    acknowledges :
        (d : Delivery) (f : Frame) (rest : List Frame) (msg : AckMsg)
        → d.acks ≡ f ∷ rest
        → ack.unmarshal f.payload ≡ some msg
        → Step d (record d { acks = rest; sender = update_ack d.sender msg.offset })
    -- `trimAll` removes the entry of a closed stream; that it does so only while the stream has no
    -- subscriber is left open here
    removes : (d : Delivery) → d.buffer.closed ≡ true → Step d (record d { registered = false })
    -- the connection is lost between two frames, and the edge registers again, where `GetOrCreate`
    -- finds the entry
    reconnects :
        (d : Delivery)
        → idle d.handling ≡ true
        → d.registered ≡ true
        → Step d (record d {
          sender = start_sender (new_stream_send_state d.sender.entry) d.receiver.recv_offset;
          sending = true;
          wire = [];
          receiver = record (d.receiver) { buf = reopen d.receiver.buf };
          acks = [];
        })

  pub data Reach (s : Delivery) : Delivery → Type 0 where
    here : Reach s s
    next : {d e : Delivery} → Reach s d → Step d e → Reach s e
