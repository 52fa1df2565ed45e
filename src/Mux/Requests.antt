-- ===== src/Mux/Requests.antt =====
-- internal/mux/server/server.go: `Server`, the edges that are connected, and the way of an HTTP request
-- to one of them. A path is its bytes. A session is a reference; `replaced` are the sessions that
-- a new connection of the same node has closed, the last one first.
pub mod Serving
use accel_proxy.Common.{
  Bool, List, Option, String, [], bool_eq, if◌then◌else◌, length, map, nat_beq, nat_eq, none, not,
  pair_eq, some, string_eq, text_append, ℕ, ◌%◌, ◌&&◌, ◌++◌, ◌+◌, ◌==◌, ◌^◌, ◌∷◌,
}
use accel_proxy.Common.Dict.{Dict, delete, insert, lookup}
use accel_proxy.Mux.Server.{EdgeSession, close_with_reason, has_capability, new_edge_session}
use accel_proxy.Wire.{Bytes}

pub record MuxServer : Type 0 where
  pub push_api_key : String
  pub nodes : Dict String ℕ
  pub sessions : ℕ → EdgeSession
  pub next_session : ℕ
  pub replaced : List ℕ
  pub next_sid : ℕ

unfoldable pub new_mux_server : String → (ℕ → EdgeSession) → MuxServer
new_mux_server push_api_key sessions = record {
  push_api_key = push_api_key;
  nodes = [];
  sessions = sessions;
  next_session = 0;
  replaced = [];
  next_sid = 1;
}

-- `allocStreamID`, from the counter: its new value, and the id. An id of 0 is passed over.
unfoldable pub alloc_stream_id : ℕ → ℕ × ℕ
alloc_stream_id counter =
    let next = (counter + 2) % 2 ^ 32 in
    let id = counter % 2 ^ 32 in if nat_beq id 0 then ((next + 2) % 2 ^ 32, next) else (next, id)

-- The part of a REGISTER message that the server reads; `none` where the first frame is no REGISTER
-- on the control stream, or cannot be decoded.
pub record Registering : Type 0 where
  pub node_id : String
  pub capabilities : List String

pub data Edge : Type 0 where
  rejected ack_failed : Edge
  reads_frames : ℕ → Edge

-- `handleEdge` up to `readLoop`; `written` tells whether REGISTER_ACK can be written.
unfoldable pub handle_edge : MuxServer → Option Registering → Bool → MuxServer × Edge
handle_edge s none written = (s, rejected)
handle_edge s (some reg) written =
    let i = s.next_session in
    let old : List ℕ = elim (lookup reg.node_id s.nodes) [ none ↦ [] | some j ↦ j ∷ [] ] in
    let session = new_edge_session reg.node_id reg.capabilities in
    let closed : ℕ → EdgeSession = elim (lookup reg.node_id s.nodes) [
      | none ↦ s.sessions
      | some j ↦ λ k. if nat_beq k j then close_with_reason (s.sessions j) else s.sessions k
    ] in
    if reg.node_id == "" then (s, rejected) else if not written then (s, ack_failed) else (
      record s {
        nodes = insert reg.node_id i s.nodes;
        sessions = λ k. if nat_beq k i then session else closed k;
        next_session = i + 1;
        replaced = old ++ s.replaced;
      },
      reads_frames i,
    )

-- The end of `handleEdge`: CompareAndDelete.
unfoldable pub end_edge : MuxServer → String → ℕ → MuxServer
end_edge s node_id i = elim (lookup node_id s.nodes) [
  | none ↦ s
  | some j ↦ if nat_beq j i then record s { nodes = delete node_id s.nodes } else s
]

pub get_session : MuxServer → String → Option EdgeSession
get_session s node_id = elim (lookup node_id s.nodes) [ none ↦ none | some i ↦ some (s.sessions i) ]

pub node_ids : MuxServer → List String
node_ids s = map (λ e. e.0) s.nodes

pub requestable : (ℕ → EdgeSession) → Dict String ℕ → List String
requestable sessions [] = []
requestable sessions ((id, i) ∷ more) =
    let rest = requestable sessions more in
    if has_capability (sessions i).capabilities "reverse-http" then id ∷ rest else rest

pub requestable_node_ids : MuxServer → List String
requestable_node_ids s = requestable s.sessions s.nodes

abbrev pub slash : ℕ
slash = 47

abbrev pub question_mark : ℕ
question_mark = 63

-- What follows "/dispatch/": the node, and the path with its leading slash.
unfoldable pub split_path : Bytes → Bytes × Bytes
split_path [] = ([], slash ∷ [])
split_path (c ∷ more) =
    let (node, path) = split_path more in
    if nat_beq c slash then ([], c ∷ more) else (c ∷ node, path)

unfoldable pub with_query : Bytes → Bytes → Bytes
with_query path query = if nat_beq (length query) 0 then path else path ++ (question_mark ∷ query)

-- The headers that are forwarded; `equal_fold` is strings.EqualFold.
pub forwarded_headers :
    (String → String → Bool) → Dict String (List String) → Dict String (List String)
forwarded_headers equal_fold [] = []
forwarded_headers equal_fold ((k, v) ∷ more) =
    let rest = forwarded_headers equal_fold more in
    if equal_fold k "Authorization" then rest else (k, v) ∷ rest

pub data Dispatch : Type 0 where
  unauthorized bad_path not_connected not_requestable : Dispatch
  -- the target path, for the session and the stream with these numbers
  forwards : ℕ → ℕ → Bytes → Dispatch

-- The handler of /dispatch/ up to `DoRequest`: `authorization` is the header of that name, `rest` the
-- path after "/dispatch/". `text` gives the string of a node id.
unfoldable pub dispatch_request :
    (Bytes → String) → MuxServer → String → Bytes → Bytes → MuxServer × Dispatch
dispatch_request text s authorization rest query =
    let (node, path) = split_path rest in
    let (next, id) = alloc_stream_id s.next_sid in
    if not (s.push_api_key == "") && not (authorization == text_append "Bearer " s.push_api_key)
    then (s, unauthorized)
    else if nat_beq (length rest) 0
    then (s, bad_path)
    else elim (lookup (text node) s.nodes) [
      | none ↦ (s, not_connected)
      | some i ↦
          if has_capability (s.sessions i).capabilities "reverse-http"
          then (record s { next_sid = next }, forwards i id (with_query path query))
          else (s, not_requestable)
    ]
