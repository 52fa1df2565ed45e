-- ===== src/Mux/EdgeExamples.antt =====
-- The theorems about the two ends of a connection with an edge at concrete inputs.
use accel_proxy.Mux.Client.{EdgeClientSession, Messages, new_edge_client_session}
use accel_proxy.Mux.Dispatch.{dispatch}
use accel_proxy.Mux.Dispatch.Isolation.{dispatch-other}
use accel_proxy.Mux.Requests.{
  Dispatch, MuxServer, Registering, alloc_stream_id, dispatch_request, end_edge, forwards,
  handle_edge, new_mux_server, split_path, with_query,
}
use accel_proxy.Mux.Requests.Serving.{Served, dispatch_request_lem, end_edge-handle_edge}
use accel_proxy.Mux.Stream.{RequestMeta}
use accel_proxy.Mux.Frame.{Frame, type_headers}
use accel_proxy.Mux.Server.{has_capability, new_edge_session}
use accel_proxy.Common.Dict.{insert, lookup}
use accel_proxy.Common.{
  [], arith, bool_eq, nat_eq, none, pair_eq, refl, some, string_eq, true, ℕ, ◌<◌, ◌↔◌, ◌∷◌, ◌≡◌,
}

abbrev a_request : RequestMeta
a_request = record { method = "GET"; url = "/"; host = "h"; headers = [] }

abbrev messages : Messages
messages = record {
  json = record { request = λ b. some a_request; response = λ b. none };
  push_ack = λ id offset. [];
  push_rst_reason = λ b. "";
  rst = λ reason. [];
  go_away = λ id. [];
  is_go_away = λ b. true;
}

abbrev asking : ℕ → Frame
asking id = record { stream_id = id; frame_type = type_headers; flags = 0; payload = [] }

-- An edge that serves the request of stream 1.
abbrev serving : EdgeClientSession
serving = (dispatch messages true (new_edge_client_session "edge" [] true) (asking 1)).0

dispatch-other_example :
    lookup 1 (dispatch messages true serving (asking 3)).0.req_streams
    ≡ lookup 1 serving.req_streams
dispatch-other_example = dispatch-other messages true serving (asking 3) 1 refl

abbrev registering : Registering
registering = record { node_id = "edge"; capabilities = "reverse-http" ∷ [] }

abbrev empty_server : MuxServer
empty_server = new_mux_server "key" (λ i. new_edge_session "" [])

abbrev one_edge : MuxServer
one_edge = (handle_edge empty_server (some registering) true).0

one_edge-next_session : 0 < one_edge.next_session
unfolding handle_edge new_mux_server
one_edge-next_session = omega arith

end_edge-handle_edge_example :
    lookup "edge" (end_edge (handle_edge one_edge (some registering) true).0 "edge" 0).nodes
    ≡ some one_edge.next_session
end_edge-handle_edge_example =
    end_edge-handle_edge one_edge registering 0 refl one_edge-next_session

-- The path "e/a" with the query "q".
abbrev the_answer : MuxServer × Dispatch
the_answer = dispatch_request (λ b. "edge") one_edge "Bearer key" (101 ∷ 47 ∷ 97 ∷ []) (113 ∷ [])

the_answer-forwards : the_answer.1 ≡ forwards 0 1 (47 ∷ 97 ∷ 63 ∷ 113 ∷ [])
unfolding dispatch_request handle_edge new_mux_server insert lookup has_capability new_edge_session
    split_path with_query alloc_stream_id
the_answer-forwards = refl

dispatch_request_example :
    ((id : ℕ) × (the_answer.1 ≡ forwards 0 id (47 ∷ 97 ∷ 63 ∷ 113 ∷ [])))
    ↔ Served
        (λ b. "edge")
        one_edge
        "Bearer key"
        (101 ∷ 47 ∷ 97 ∷ [])
        (113 ∷ [])
        0
        (47 ∷ 97 ∷ 63 ∷ 113 ∷ [])
dispatch_request_example =
    dispatch_request_lem (λ b. "edge") one_edge "Bearer key" (101 ∷ 47 ∷ 97 ∷ []) (113 ∷ []) 0
      (47 ∷ 97 ∷ 63 ∷ 113 ∷ [])
