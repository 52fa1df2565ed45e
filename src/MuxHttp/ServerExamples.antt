-- ===== src/MuxHttp/ServerExamples.antt =====
-- The theorems about the sessions, the requests and the broker of internal/mux_http/server at
-- concrete inputs.
use accel_proxy.Common.{
  List, [], arith, bool_eq, false, length, nat_beq, nat_eq, none, pair_eq, refl, some, string_eq,
  true, ℕ, ◌<◌, ◌∷◌, ◌≡◌, ◌≤◌,
}
use accel_proxy.Common.Int.{int_eq, pos}
use accel_proxy.Common.Dict.{lookup}
use accel_proxy.MuxHttp.Messages.{Codec, HttpErrorMsg, HttpRequestMsg, HttpResponseHeadMsg}
use accel_proxy.MuxHttp.Session.{
  HttpResult, Part, new_edge_session, response_body, response_end, response_error, response_head,
}
use accel_proxy.MuxHttp.Session.Responses.{concat, only, run_parts, run_parts-whole, whole_response}
use accel_proxy.MuxHttp.Requests.{
  alloc_request_id, answered, await_response, awaits, new_http_proxy_broker, not_connected,
  request_frame, start_request, timed_out, write_failed,
}
use accel_proxy.MuxHttp.Requests.Answers.{
  Event, await_response-start_request, first_of, goes_on, request_ends, result_comes, run_events,
  start_request-errors,
}
use accel_proxy.MuxHttp.Buffer.{append, new_stream_buffer, read}
use accel_proxy.MuxHttp.Broker.{PushBroker, new_push_broker, trim_all}
use accel_proxy.MuxHttp.Broker.Trimming.{OwnsBuffers, read-trim_all}
use accel_proxy.MuxHttp.Buffer.Calls.{Call, append_call, log_of, new-Holds, run, run-Holds, step}
use accel_proxy.MuxHttp.Registry.{StreamEntry, get, get_by_id}
use accel_proxy.MuxHttp.Subscriptions.{subscribers}

abbrev found : HttpResponseHeadMsg
found = record { status_code = 200; headers = [] }

abbrev failed : HttpErrorMsg
failed = record { code = 502; message = "no route" }

-- Two requests, of which the second one fails while the first one is answered.
abbrev interleaved : List (ℕ × Part)
interleaved =
    (5, response_head found)
    ∷ (6, response_head found)
    ∷ (5, response_body (1 ∷ 2 ∷ []))
    ∷ (6, response_error failed)
    ∷ (5, response_body (3 ∷ []))
    ∷ (5, response_end)
    ∷ []

of_five : only 5 interleaved ≡ whole_response found ((1 ∷ 2 ∷ []) ∷ (3 ∷ []) ∷ [])
unfolding only
of_five = refl

run_parts-whole_example :
    only 5 (run_parts [] interleaved)
    ≡ record {
      status_code = 200;
      headers = [];
      body = concat ((1 ∷ 2 ∷ []) ∷ (3 ∷ []) ∷ []);
      err = none;
    }
      ∷ []
run_parts-whole_example =
    run_parts-whole [] interleaved 5 found ((1 ∷ 2 ∷ []) ∷ (3 ∷ []) ∷ []) of_five

abbrev requests : Codec HttpRequestMsg
requests = record { marshal = λ m. m.body; unmarshal = λ bs. none }

abbrev ping_request : HttpRequestMsg
ping_request = record { method = "GET"; url = "/ping"; headers = []; body = 9 ∷ [] }

abbrev first_id : ℕ
first_id = alloc_request_id (new_http_proxy_broker).next_request_id

abbrev fine : HttpResult
fine = record { status_code = 200; headers = []; body = 1 ∷ []; err = none }

abbrev bad : HttpResult
bad = record { status_code = 502; headers = []; body = []; err = some "late" }

-- A result for another request, the answer, and one that comes too late.
abbrev events : List Event
events =
    result_comes 7 bad
    ∷ request_ends 8
    ∷ result_comes 0x80000001 fine
    ∷ result_comes 0x80000001 bad
    ∷ []

events_go_on : goes_on first_id events ≡ true
unfolding goes_on alloc_request_id new_http_proxy_broker
events_go_on = refl

first_is_fine : first_of none first_id events ≡ some fine
unfolding first_of alloc_request_id new_http_proxy_broker
first_is_fine = refl

await_response-start_request_example :
    let (sent, how) =
      start_request requests new_http_proxy_broker (some 0) "edge" ping_request true in
    let (b', answer) = await_response (run_events sent events) first_id false false in
    (how ≡ awaits first_id (request_frame requests first_id ping_request))
    × (answer ≡ answered fine)
    × (lookup first_id b'.pending ≡ none)
await_response-start_request_example =
    await_response-start_request requests new_http_proxy_broker 0 "edge" ping_request events fine
      events_go_on first_is_fine

other_id : nat_beq first_id 7 ≡ false
unfolding alloc_request_id new_http_proxy_broker
other_id = refl

start_request-errors_example :
    let b = new_http_proxy_broker in
    let (failed, how) = start_request requests b (some 0) "edge" ping_request false in
    let (sent, w) = start_request requests b (some 0) "edge" ping_request true in
    let (late, answer) = await_response sent first_id true true in
    (start_request requests b none "edge" ping_request true ≡ (b, not_connected))
    × (how ≡ write_failed)
    × (lookup first_id failed.pending ≡ none)
    × (lookup 7 failed.pending ≡ lookup 7 b.pending)
    × (answer ≡ timed_out)
    × (lookup first_id late.pending ≡ none)
    × (lookup 7 late.pending ≡ lookup 7 b.pending)
start_request-errors_example =
    start_request-errors requests new_http_proxy_broker 0 7 "edge" ping_request other_id

abbrev four : List Call
four = append_call (1 ∷ 2 ∷ 3 ∷ 4 ∷ []) ∷ []

abbrev news : StreamEntry
news = record { name = "news"; id = 2; buffer = 0 }

-- One stream, of which one node has acknowledged three bytes and another one byte.
abbrev broker : PushBroker
broker = record (new_push_broker 2 (λ i. new_edge_session "")) {
  streams = record {
    streams = ("news", news) ∷ [];
    by_id = (2, news) ∷ [];
    max_retain = pos 10;
    next_stream_id = 2;
    buffers = λ i. run (new_stream_buffer (pos 10)) four;
    next_buffer = 1;
  };
  subs = ("news", ("east", tt) ∷ ("west", tt) ∷ []) ∷ [];
  ack_table = (("east", 2), 3) ∷ (("west", 2), 1) ∷ [];
}

broker-OwnsBuffers : OwnsBuffers broker.streams
unfolding OwnsBuffers get_by_id lookup
broker-OwnsBuffers i j e f g h b = ground (arith, g, h)

news_found : get_by_id broker.streams 2 ≡ some news
unfolding get_by_id lookup
news_found = refl

west_acked : lookup ("west", 2) broker.ack_table ≡ some 1
unfolding lookup
west_acked = refl

news_base : (broker.streams.buffers news.buffer).base_offset ≤ 2
unfolding run step append new_stream_buffer
news_base = omega arith

news_named : get broker.streams "news" ≡ some news
unfolding get lookup
news_named = refl

news_subscribed : 0 < length (subscribers broker.subs "news")
unfolding subscribers lookup
news_subscribed = omega arith

read-trim_all_example :
    (get (trim_all broker).streams "news" ≡ some news)
    × (read ((trim_all broker).streams.buffers news.buffer) 2 2
        ≡ read (broker.streams.buffers news.buffer) 2 2)
read-trim_all_example =
    read-trim_all broker "west" 2 1 2 2 news (log_of (new_stream_buffer (pos 10)) four)
      broker-OwnsBuffers news_found news_named news_subscribed west_acked
      (run-Holds (new_stream_buffer (pos 10)) [] four (new-Holds (pos 10))) news_base (omega arith)
