-- ===== src/Mux/Flow.antt =====
-- The body of a request end to end: the server's stream, whose window `SendBodyWithFlowControl` takes
-- credit from; the DATA frames under way; the edge's stream, which `OnData` gives them to; the
-- `WindowUpdateReader` that `ReqBodyReader` makes; and the WINDOW_UPDATE frames on their way back to
-- `OnWindowUpdate`. The body may end, and the edge may reset or remove its stream at any moment; the server keeps its own. The
-- direction of the response is not here: `toInt32` keeps the server's stream in the request phase.
pub mod Invariant
pub mod Steps
pub mod Run
pub mod Safety
use accel_proxy.Common.{Bool, List, String, [], false, length, true, ℕ, ◌++◌, ◌<◌, ◌∷◌, ◌≡◌, ◌≤◌}
use accel_proxy.Common.Int.{pos, ℤ}
use accel_proxy.Wire.{Bytes}
use accel_proxy.Mux.Frame.{Frame, data_chunk_size, flag_end_stream, type_data}
use accel_proxy.Mux.Pipe.{Outcome}
use accel_proxy.Mux.Pipe.Steps.{bytes_of}
use accel_proxy.Mux.Stream.{
  Stream, WindowUpdateReader, acquire, close, granted, new_stream, on_data, on_rst,
  on_window_update, win_dir_request, window_read,
}

pub record Link : Type 0 where
  pub sender : Stream
  -- whether `SendBodyWithFlowControl` has sent END_STREAM
  pub finished : Bool
  -- DATA frames under way, oldest first
  pub wire : List Frame
  pub receiver : Stream
  -- whether the edge's table has the stream no longer, so that frames for it are dropped
  pub removed : Bool
  -- the count of the reader of the receiver's `req_body`
  pub pending_inc : ℕ
  -- WINDOW_UPDATE frames under way, oldest first
  pub updates : List Frame
  -- all that was ever sent, read, and dropped
  pub given : Bytes
  pub taken : Bytes
  pub dropped : Bytes

unfoldable pub new_link : ℕ → Link
new_link id = record {
  sender = new_stream id;
  finished = false;
  wire = [];
  receiver = new_stream id;
  removed = false;
  pending_inc = 0;
  updates = [];
  given = [];
  taken = [];
  dropped = [];
}

-- `SendData`
abbrev pub data_frame : ℕ → Bytes → ℕ → Frame
data_frame id bytes flags = record {
  stream_id = id;
  frame_type = type_data;
  flags = flags;
  payload = bytes;
}

-- `ReqBodyReader`
abbrev pub req_body_reader : Stream → ℕ → WindowUpdateReader
req_body_reader s pending_inc = record {
  pipe = s.req_body;
  sid = s.id;
  dir = win_dir_request;
  pending_inc = pending_inc;
}

-- `Read` of that reader
abbrev pub body_read : Link → ℕ → WindowUpdateReader × Outcome Bytes × List Frame
body_read l n = window_read true (req_body_reader l.receiver l.pending_inc) n

pub data Step : Link → Link → Type 0 where
  -- a chunk for which `Acquire` grants credit goes on the wire
  sends :
      (l : Link) (chunk : Bytes) (left : ℤ) (ctx_done : Bool)
      → l.finished ≡ false
      → 0 < length chunk
      → length chunk ≤ data_chunk_size
      → acquire l.sender.send_window_req (pos (length chunk)) ctx_done l.sender.is_closed
        ≡ granted left
      → Step l (record l {
        sender = record (l.sender) { send_window_req = left };
        wire = l.wire ++ (data_frame l.sender.id chunk 0 ∷ []);
        given = l.given ++ chunk;
      })
  -- the body is at its end
  finishes :
      (l : Link)
      → l.finished ≡ false
      → Step l (record l {
        finished = true;
        wire = l.wire ++ (data_frame l.sender.id [] flag_end_stream ∷ []);
      })
  -- a DATA frame reaches the stream
  delivers :
      (l : Link) (f : Frame) (rest : List Frame)
      → l.removed ≡ false
      → l.wire ≡ f ∷ rest
      → Step l (record l { wire = rest; receiver = (on_data l.receiver f).0 })
  -- a DATA frame for a stream that the edge no longer has
  drops :
      (l : Link) (f : Frame) (rest : List Frame)
      → l.removed ≡ true
      → l.wire ≡ f ∷ rest
      → Step l (record l { wire = rest; dropped = l.dropped ++ f.payload })
  -- the consumer reads up to `n` bytes
  reads :
      (l : Link) (n : ℕ)
      → Step l (record l {
        receiver = record (l.receiver) { req_body = (body_read l n).0.pipe };
        pending_inc = (body_read l n).0.pending_inc;
        updates = l.updates ++ (body_read l n).2;
        taken = l.taken ++ bytes_of (body_read l n).1;
      })
  -- a WINDOW_UPDATE frame reaches the sender
  credits :
      (l : Link) (f : Frame) (rest : List Frame)
      → l.updates ≡ f ∷ rest
      → Step l (record l { sender = on_window_update l.sender f.payload; updates = rest })
  -- an RST frame reaches the edge
  resets :
      (l : Link) (reason : String)
      → Step l (record l { receiver = on_rst l.receiver reason; removed = true })
  -- the edge has served the request
  removes : (l : Link) → Step l (record l { receiver = close l.receiver; removed = true })

pub data Reach (s : Link) : Link → Type 0 where
  here : Reach s s
  next : {l m : Link} → Reach s l → Step l m → Reach s m
