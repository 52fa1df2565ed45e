-- ===== src/Mux/Server/Responses.antt =====
-- What a session can make of the responses of an edge node.
use accel_proxy.Common.{
  List, Option-cases, String, [], arith, bool_eq, if◌then◌else◌, inl, inr, nat_eq, pair_eq,
  string_eq, ℕ, ◌∷◌, ◌≢◌,
}
use accel_proxy.Common.Dict.{
  AllValues, AllValues-delete, AllValues-insert, AllValues-lookup, delete, insert, lookup,
}
use accel_proxy.Mux.Frame.{Frame}
use accel_proxy.Mux.Stream.{
  RequestMeta, ResponseMeta, Stream, new_stream, on_data, on_headers, on_window_update, value,
}
use accel_proxy.Mux.Stream.Phases.{
  AwaitsResponse, new_stream-AwaitsResponse, on_data-AwaitsResponse, on_headers-AwaitsResponse,
  on_window_update-AwaitsResponse,
}
use accel_proxy.Mux.Server.{
  EdgeSession, Messages, await_response, handle_control_frame, handle_frame, handle_known,
  handle_stream_frame, new_edge_session, remove_stream, start_request,
}

abbrev pub AllAwait : EdgeSession → Type 0
AllAwait s = AllValues AwaitsResponse s.streams

pub start_request-AllAwait :
    (m : Messages) (s : EdgeSession) (id : ℕ) (meta : RequestMeta)
    → AllAwait s
    → AllAwait (start_request m s id meta)
unfolding start_request
start_request-AllAwait m s id meta v =
    AllValues-insert AwaitsResponse id (new_stream id) s.streams (new_stream-AwaitsResponse id) v

handle_known-AllAwait :
    (m : Messages) (s : EdgeSession) (st : Stream) (f : Frame)
    → AwaitsResponse st
    → AllAwait s
    → AllAwait (handle_known m s st f)
unfolding handle_known
handle_known-AllAwait m s st f w v = ground (
  arith,
  keep (on_headers m.json st f).0 (on_headers-AwaitsResponse m.json st f w),
  keep (on_data st f).0 (on_data-AwaitsResponse st f w),
  keep (on_window_update st f.payload) (on_window_update-AwaitsResponse st f.payload w),
  AllValues-delete AwaitsResponse f.stream_id s.streams v,
)
  where
    keep :
        (st' : Stream)
        → AwaitsResponse st'
        → AllValues AwaitsResponse (insert f.stream_id st' s.streams)
    keep st' w' = AllValues-insert AwaitsResponse f.stream_id st' s.streams w' v

handle_frame-AllAwait :
    (m : Messages) (s : EdgeSession) (f : Frame) → AllAwait s → AllAwait (handle_frame m s f)
unfolding handle_frame handle_stream_frame handle_control_frame
handle_frame-AllAwait m s f v = elim (Option-cases (lookup f.stream_id s.streams)) [
  | inl e ↦ ground arith
  | inr (st, e) ↦ ground (
    arith,
    handle_known-AllAwait m s st f (AllValues-lookup AwaitsResponse f.stream_id s.streams st v e) v,
  )
]

-- What happens to a session: frames arrive, requests start, and requests are given up.
pub data Event : Type 0 where
  arrives : Frame → Event
  asks : ℕ → RequestMeta → Event
  drops : ℕ → Event

pub serve : Messages → EdgeSession → List Event → EdgeSession
serve m s [] = s
serve m s (arrives f ∷ es) = serve m (if s.is_over then s else handle_frame m s f) es
serve m s (asks id meta ∷ es) = serve m (start_request m s id meta) es
serve m s (drops id ∷ es) = serve m (remove_stream s id) es

serve-AllAwait :
    (m : Messages) (es : List Event) (s : EdgeSession) → AllAwait s → AllAwait (serve m s es)
unfolding serve remove_stream
serve-AllAwait m [] s v = v
serve-AllAwait m (arrives f ∷ es) s v =
    serve-AllAwait m es (if s.is_over then s else handle_frame m s f)
      (ground (arith, v, handle_frame-AllAwait m s f v))
serve-AllAwait m (asks id meta ∷ es) s v =
    serve-AllAwait m es (start_request m s id meta) (start_request-AllAwait m s id meta v)
serve-AllAwait m (drops id ∷ es) s v =
    serve-AllAwait m es (record s { streams = delete id s.streams })
      (AllValues-delete AwaitsResponse id s.streams v)

-- Whatever a session goes through from its start, whatever frames the edge node sends, no request
-- of the session ever gets a response: a wait in `DoRequest` finds no response headers.
pub await_response-ne-value :
    (m : Messages) (node_id : String) (caps : List String) (es : List Event) (id : ℕ)
    (resp : ResponseMeta)
    → await_response (serve m (new_edge_session node_id caps) es) id ≢ value resp
unfolding await_response new_edge_session
await_response-ne-value m node_id caps es id resp =
    go (serve m (new_edge_session node_id caps) es)
      (serve-AllAwait m es (new_edge_session node_id caps) tt)
  where
    go : (s : EdgeSession) → AllAwait s → await_response s id ≢ value resp
    go s v = elim (Option-cases (lookup id s.streams)) [
      | inl e ↦ λ h. ground arith
      | inr (st, e) ↦
          let w = AllValues-lookup AwaitsResponse id s.streams st v e in
          λ h. ground (arith, w.no_headers)
    ]
