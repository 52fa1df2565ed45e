-- ===== src/MuxHttp/Registration.antt =====
-- internal/mux_http/server/push.go: `HandleEdgeConn`, from the first frame of a connection to the end
-- of its session, and `Push`.
use accel_proxy.Common.{
  Bool, List, Option, String, [], bool_eq, false, if◌then◌else◌, length, ltb, nat_beq, nat_eq, none,
  not, pair_eq, some, string_eq, true, ℕ, ◌+◌, ◌==◌, ◌||◌, ◌∷◌,
}
use accel_proxy.Common.Dict.{Dict, insert, lookup}
use accel_proxy.MuxHttp.Buffer.{
  StreamBuffer, StreamError, append, buffer_closed, close, closed_with, end_of_stream, refused,
  stored, waits,
}
use accel_proxy.MuxHttp.Registry.{StreamRegistry, get_or_create}
use accel_proxy.MuxHttp.Subscriptions.{SubscriptionTable, subscribe, unsubscribe}
use accel_proxy.MuxHttp.Nodes.{register, session_of, unregister}
use accel_proxy.MuxHttp.Messages.{
  Codecs, RegisterMsg, control_stream_id, type_register, type_register_ack,
}
use accel_proxy.MuxHttp.Frame.{Frame}
use accel_proxy.MuxHttp.Sender.{start_sender}
use accel_proxy.MuxHttp.Session.{
  Asked, EdgeSession, acks, add_stream, answers, close_with_reason, new_edge_session, nothing,
  on_frame, pong_seen, responds, set_send_state,
}
use accel_proxy.MuxHttp.Requests.{Offered, offer}
use accel_proxy.MuxHttp.Broker.{PushBroker, on_ack, on_pong, set_session}
use accel_proxy.Wire.{Bytes}

-- The REGISTER message of a first frame that is accepted.
pub register_msg : Codecs → Frame → Option RegisterMsg
register_msg c f = elim (c.register.unmarshal f.payload) [
  | none ↦ none
  | some reg ↦
      if not (nat_beq f.frame_type type_register) || not (nat_beq f.stream_id control_stream_id)
      then none
      else if reg.node_id == ""
      then none
      else some reg
]

pub has_name : String → List String → Bool
has_name name [] = false
has_name name (x ∷ more) = let rest = has_name name more in if x == name then true else rest

-- The session with the capabilities that are declared; subscribing is one too.
pub declared : RegisterMsg → EdgeSession → EdgeSession
declared reg s = record s {
  cap_push = has_name "push" reg.caps || ltb 0 (length reg.subs);
  cap_http_proxy = has_name "http_proxy" reg.caps;
}

-- `off, ok := reg.Resume[name]`
pub resume_at : Option (Dict String ℕ) → String → Option ℕ
resume_at none name = none
resume_at (some resume) name = lookup name resume

-- What a registration has set up: the registries, the session, and the ids for REGISTER_ACK.
pub record Setup : Type 0 where
  pub streams : StreamRegistry
  pub subs : SubscriptionTable
  pub session : EdgeSession
  pub stream_ids : Dict String ℕ

-- One round of the loop over the subscriptions.
pub set_up_stream : RegisterMsg → Setup → String → Setup
set_up_stream reg u name =
    let (streams, entry) = get_or_create u.streams name in
    let (session, st) = add_stream u.session entry in
    let resumed : EdgeSession = elim (resume_at reg.resume name) [
      | none ↦ session
      | some off ↦ set_send_state session entry.id (start_sender st off)
    ] in
    record {
      streams = streams;
      subs = subscribe u.subs name reg.node_id;
      session = resumed;
      stream_ids = insert name entry.id u.stream_ids;
    }

pub set_up_streams : RegisterMsg → Setup → List String → Setup
set_up_streams reg u [] = u
set_up_streams reg u (name ∷ more) = set_up_streams reg (set_up_stream reg u name) more

pub set_up : PushBroker → RegisterMsg → Setup
set_up b reg =
    set_up_streams reg
      (record {
        streams = b.streams;
        subs = b.subs;
        session = declared reg (new_edge_session reg.node_id);
        stream_ids = [];
      })
      reg.subs

pub register_ack_frame : Codecs → Dict String ℕ → Frame
register_ack_frame c stream_ids = record {
  stream_id = control_stream_id;
  frame_type = type_register_ack;
  payload = c.register_ack.marshal (record { ok = true; message = ""; stream_ids = stream_ids });
}

-- The loop that starts the senders: the ids of the streams for which one starts, at its send offset.
pub senders : StreamRegistry → EdgeSession → List String → StreamRegistry × List ℕ
senders r s [] = (r, [])
senders r s (name ∷ more) =
    let (r', entry) = get_or_create r name in
    let (last, ids) = senders r' s more in
    elim (lookup entry.id s.streams) [ none ↦ (last, ids) | some st ↦ (last, entry.id ∷ ids) ]

-- How `HandleEdgeConn` begins: it closes the connection, or goes on to `readLoop` with the session,
-- having started a sender for each id. `Register` closes the session that was there.
pub data Connected : Type 0 where
  rejected ack_failed : Connected
  reads_frames : ℕ → Frame → List ℕ → Connected

pub register_edge : PushBroker → RegisterMsg → Setup → PushBroker
register_edge b reg u =
    let i = b.next_session in
    let closing : PushBroker = elim (session_of b.nodes reg.node_id) [
      | none ↦ b
      | some old ↦ set_session b old (close_with_reason (b.sessions old))
    ] in
    set_session
      (record closing {
        streams = u.streams;
        subs = u.subs;
        nodes = register b.nodes reg.node_id i;
        next_session = i + 1;
      })
      i u.session

pub handle_edge_conn : Codecs → PushBroker → Frame → Bool → PushBroker × Connected
handle_edge_conn c b f written = elim (register_msg c f) [
  | none ↦ (b, rejected)
  | some reg ↦
      (let u = set_up b reg in
        let unregistered : PushBroker = record b { streams = u.streams; subs = u.subs } in
        let (streams, ids) = senders u.streams u.session reg.subs in
        let b' = register_edge b reg u in
        if written
        then (
          record b' { streams = streams },
          reads_frames b.next_session (register_ack_frame c u.stream_ids) ids,
        )
        else (unregistered, ack_failed))
]

-- The end of `HandleEdgeConn`, when `readLoop` has returned and closed its session.
pub end_edge_conn : PushBroker → String → ℕ → PushBroker
end_edge_conn b node_id i =
    let b' = set_session b i (close_with_reason (b.sessions i)) in
    record b' { nodes = unregister b.nodes node_id i; subs = unsubscribe b.subs node_id }

-- A frame of an edge, with what `readLoop` hands to the broker for it.
pub on_asked : PushBroker → EdgeSession → Asked → PushBroker × Option Frame × Option Offered
on_asked b s nothing = (b, none, none)
on_asked b s pong_seen = (on_pong b s.node_id, none, none)
on_asked b s (answers f) = (b, some f, none)
on_asked b s (acks stream_id offset) = (on_ack b s.node_id stream_id offset, none, none)
on_asked b s (responds id r) =
    let (h, how) = offer b.http_proxy id r in (record b { http_proxy = h }, none, some how)

pub on_edge_frame : Codecs → PushBroker → ℕ → Frame → PushBroker × Option Frame × Option Offered
on_edge_frame c b i f =
    let (s, asked) = on_frame c (b.sessions i) f in on_asked (set_session b i s) s asked

-- One read of the origin by `Push`.
pub data Read : Type 0 where
  cancelled : String → Read
  gives : Bytes → Option StreamError → Read

-- How a round of `Push` ends: it goes on with the total, waits in `Append`, or returns.
pub data Pushed : Type 0 where
  goes_on : ℕ → Pushed
  waits_for_room : Pushed
  pushed : ℕ → Option StreamError → Pushed

-- What follows the bytes of a read.
pub push_error : StreamBuffer → ℕ → Option StreamError → StreamBuffer × Pushed
push_error buffer total none = (buffer, goes_on total)
push_error buffer total (some end_of_stream) = (close buffer none, pushed total none)
push_error buffer total (some e) = (close buffer (some e), pushed total (some e))

pub push_round : StreamBuffer → ℕ → Read → StreamBuffer × Pushed
push_round buffer total (cancelled why) =
    (close buffer (some (closed_with why)), pushed total (some (closed_with why)))
push_round buffer total (gives [] e) = push_error buffer total e
push_round buffer total (gives (x ∷ xs) e) =
    let (buffer', how) = append buffer (x ∷ xs) in
    elim how [
      | stored ↦ push_error buffer' (total + length (x ∷ xs)) e
      | waits ↦ (buffer', waits_for_room)
      | refused ↦ (close buffer' (some buffer_closed), pushed total (some buffer_closed))
    ]
