-- ===== src/MuxHttp/Broker.antt =====
-- internal/mux_http/server/push.go: `PushBroker`, which joins the registries, the sessions of the
-- edges, and the table of acknowledged offsets. A session is a reference; `sessions` holds them.
pub mod Finished
pub mod Trimming
use accel_proxy.Common.{
  List, Option, String, [], bool_eq, if◌then◌else◌, length, ltb, map, nat_beq, nat_eq, none,
  pair_eq, some, string_eq, ℕ, ◌*◌, ◌+◌, ◌/◌, ◌∷◌,
}
use accel_proxy.Common.Int.{int_eq, ltz, pos, ◌-ℤ◌}
use accel_proxy.Common.Dict.{Dict, delete, insert, lookup}
use accel_proxy.MuxHttp.Buffer.{StreamBuffer, new_stream_buffer, trim}
use accel_proxy.MuxHttp.Registry.{
  StreamEntry, StreamRegistry, closed_streams, get, get_by_id, remove,
}
use accel_proxy.MuxHttp.Subscriptions.{SubscriptionTable, subscribers}
use accel_proxy.MuxHttp.Nodes.{NodeRegistry, all_sessions, new_node_registry, session_of}
use accel_proxy.MuxHttp.Session.{EdgeSession, close_with_reason}
use accel_proxy.MuxHttp.Requests.{HttpProxyBroker, new_http_proxy_broker}

abbrev pub buffer_max_retain : ℕ
buffer_max_retain = 512 * 1024 * 1024

abbrev pub evict_lag_threshold : ℕ
evict_lag_threshold = buffer_max_retain * 8 / 10

-- The node and the stream of an acknowledgement.
abbrev pub AckKey : Type 0
AckKey = String × ℕ

pub record PushBroker : Type 0 where
  pub nodes : NodeRegistry
  pub subs : SubscriptionTable
  pub streams : StreamRegistry
  pub http_proxy : HttpProxyBroker
  pub ack_table : Dict AckKey ℕ
  -- the PONGs that a node's channel of four holds
  pub pong_table : Dict String ℕ
  pub sessions : ℕ → EdgeSession
  pub next_session : ℕ

-- `next_stream_id` is the counter that the registries of a process share.
pub new_push_broker : ℕ → (ℕ → EdgeSession) → PushBroker
new_push_broker next_stream_id sessions = record {
  nodes = new_node_registry;
  subs = [];
  streams = record {
    streams = [];
    by_id = [];
    max_retain = pos buffer_max_retain;
    next_stream_id = next_stream_id;
    buffers = λ i. new_stream_buffer (pos buffer_max_retain);
    next_buffer = 0;
  };
  http_proxy = new_http_proxy_broker;
  ack_table = [];
  pong_table = [];
  sessions = sessions;
  next_session = 0;
}

pub register_pong_ch : PushBroker → String → PushBroker
register_pong_ch b node_id = record b { pong_table = insert node_id 0 b.pong_table }

pub unregister_pong_ch : PushBroker → String → PushBroker
unregister_pong_ch b node_id = record b { pong_table = delete node_id b.pong_table }

-- `onPong`: a full channel takes no more.
pub on_pong : PushBroker → String → PushBroker
on_pong b node_id = elim (lookup node_id b.pong_table) [
  | none ↦ b
  | some n ↦ if ltb n 4 then record b { pong_table = insert node_id (n + 1) b.pong_table } else b
]

pub set_session : PushBroker → ℕ → EdgeSession → PushBroker
set_session b i s = record b { sessions = λ j. if nat_beq j i then s else b.sessions j }

pub set_buffer : StreamRegistry → ℕ → StreamBuffer → StreamRegistry
set_buffer r i buffer = record r { buffers = λ j. if nat_beq j i then buffer else r.buffers j }

-- b.ackTable[k], 0 if there is none
pub acked_of : Dict AckKey ℕ → AckKey → ℕ
acked_of t k = elim (lookup k t) [ none ↦ 0 | some n ↦ n ]

pub raise_ack : Dict AckKey ℕ → AckKey → ℕ → Dict AckKey ℕ
raise_ack t k offset = if ltb (acked_of t k) offset then insert k offset t else t

pub close_node : PushBroker → String → PushBroker
close_node b node_id = elim (session_of b.nodes node_id) [
  | none ↦ b
  | some i ↦ set_session b i (close_with_reason (b.sessions i))
]

pub on_ack : PushBroker → String → ℕ → ℕ → PushBroker
on_ack b node_id stream_id offset =
    let b' : PushBroker = record b {
      ack_table = raise_ack b.ack_table (node_id, stream_id) offset;
    } in
    elim (get_by_id b'.streams stream_id) [
      | none ↦ b'
      | some entry ↦
          if ltz (pos evict_lag_threshold)
            (pos (b'.streams.buffers entry.buffer).write_offset -ℤ pos offset)
          then close_node b' node_id
          else b'
    ]

-- The first loop of `trimAll`: the least acknowledged offset of each stream.
pub lower : Option ℕ → Dict ℕ ℕ → ℕ → ℕ → Dict ℕ ℕ
lower none by_stream stream_id off = insert stream_id off by_stream
lower (some least) by_stream stream_id off =
    if ltb off least then insert stream_id off by_stream else by_stream

pub min_acks : Dict AckKey ℕ → Dict ℕ ℕ → Dict ℕ ℕ
min_acks [] by_stream = by_stream
min_acks ((k, off) ∷ more) by_stream =
    min_acks more (lower (lookup k.1 by_stream) by_stream k.1 off)

-- The second one: the buffer of each of these streams is trimmed.
pub trim_stream : StreamRegistry → Option StreamEntry → ℕ → StreamRegistry
trim_stream r none off = r
trim_stream r (some entry) off = set_buffer r entry.buffer (trim (r.buffers entry.buffer) off)

pub trim_streams : StreamRegistry → Dict ℕ ℕ → StreamRegistry
trim_streams r [] = r
trim_streams r ((stream_id, off) ∷ more) =
    trim_streams (trim_stream r (get_by_id r stream_id) off) more

pub delete_acks : Dict AckKey ℕ → ℕ → Dict AckKey ℕ
delete_acks [] stream_id = []
delete_acks ((k, off) ∷ more) stream_id =
    let rest = delete_acks more stream_id in if nat_beq k.1 stream_id then rest else (k, off) ∷ rest

pub remove_stream : PushBroker → String → PushBroker
remove_stream b name = elim (get b.streams name) [
  | none ↦ b
  | some entry ↦ record b {
    ack_table = delete_acks b.ack_table entry.id;
    streams = remove b.streams name;
  }
]

-- The third one, over the names of the closed streams.
pub remove_finished : PushBroker → List String → PushBroker
remove_finished b [] = b
remove_finished b (name ∷ more) =
    remove_finished
      (if nat_beq (length (subscribers b.subs name)) 0 then remove_stream b name else b) more

pub trim_all : PushBroker → PushBroker
trim_all b =
    let b' : PushBroker = record b { streams = trim_streams b.streams (min_acks b.ack_table []) } in
    remove_finished b' (closed_streams b'.streams)

-- `StreamInfo` over the names.
pub stream_info : StreamRegistry → List String → Dict String ℕ
stream_info r [] = []
stream_info r (name ∷ more) =
    let rest = stream_info r more in
    elim (get r name) [ none ↦ rest | some e ↦ insert name (r.buffers e.buffer).write_offset rest ]

-- `NodeIDs`
pub node_ids : PushBroker → List String
node_ids b = map (λ i. (b.sessions i).node_id) (all_sessions b.nodes)
