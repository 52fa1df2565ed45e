-- ===== src/MuxHttp/Requests/Answers.antt =====
-- The answer that a request gets, and what its end leaves behind.
use accel_proxy.MuxHttp.Requests.{
  HttpProxyBroker, PendingRequest, add_pending, alloc_request_id, answered, await_response, awaits,
  forget, not_connected, offer, request_frame, result_there, start_request, timed_out, write_failed,
}
use accel_proxy.MuxHttp.Session.{HttpResult}
use accel_proxy.Common.{
  Bool, List, Option, Option-cases, String, [], ap, arith, beq_cases, bool_eq, false, if◌then◌else◌,
  inl, inr, nat_beq, nat_eq, none, pair_eq, refl, some, string_eq, sym, true, ℕ, ◌∙◌, ◌∷◌, ◌≡◌,
}
use accel_proxy.Common.Dict.{
  insert, lookup, lookup-delete_ne, lookup-delete_self, lookup-insert_ne, lookup-insert_self,
}
use accel_proxy.MuxHttp.Messages.{Codec, HttpRequestMsg}

-- What happens to the broker while a request waits: results come, and requests end.
pub data Event : Type 0 where
  result_comes : ℕ → HttpResult → Event
  request_ends : ℕ → Event

unfoldable pub happens : HttpProxyBroker → Event → HttpProxyBroker
happens b (result_comes id r) = (offer b id r).0
happens b (request_ends id) = forget b id

unfoldable pub run_events : HttpProxyBroker → List Event → HttpProxyBroker
run_events b [] = b
run_events b (e ∷ more) = run_events (happens b e) more

-- The first result for a request, if there is one by then.
unfoldable pub first_of : Option HttpResult → ℕ → List Event → Option HttpResult
first_of (some r) id events = some r
first_of none id [] = none
first_of none id (result_comes k r ∷ more) =
    let rest = first_of none id more in if nat_beq k id then some r else rest
first_of none id (request_ends k ∷ more) = first_of none id more

-- None of the events is the end of the request.
unfoldable pub goes_on : ℕ → List Event → Bool
goes_on id [] = true
goes_on id (result_comes k r ∷ more) = goes_on id more
goes_on id (request_ends k ∷ more) =
    let rest = goes_on id more in if nat_beq k id then false else rest

offer-other :
    (b : HttpProxyBroker) (k id : ℕ) (r : HttpResult)
    → nat_beq k id ≡ false
    → lookup id (offer b k r).0.pending ≡ lookup id b.pending
unfolding offer
offer-other b k id r n = elim (Option-cases (lookup k b.pending)) [
  | inl e ↦ ground (arith, e)
  | inr (p, e) ↦ elim (Option-cases p.resp_ch) [
    | inl c ↦
        ground (arith, e, c, lookup-insert_ne k id (record p { resp_ch = some r }) b.pending n)
    | inr (full, c) ↦ ground (arith, e, c)
  ]
]

-- A pending request keeps the first result, and stays pending.
offer-same :
    (b : HttpProxyBroker) (id : ℕ) (r : HttpResult) (p : PendingRequest)
    → lookup id b.pending ≡ some p
    → (q : PendingRequest) × (lookup id (offer b id r).0.pending ≡ some q)
      × (q.resp_ch ≡ some (elim p.resp_ch [ none ↦ r | some full ↦ full ]))
unfolding offer
offer-same b id r p e = elim (Option-cases p.resp_ch) [
  | inl c ↦ (
    record p { resp_ch = some r },
    ground (arith, e, c, lookup-insert_self id (record p { resp_ch = some r }) b.pending),
    ground (arith, c),
  )
  | inr (full, c) ↦ (p, ground (arith, e, c), ground (arith, c))
]

forget-other :
    (b : HttpProxyBroker) (k id : ℕ)
    → nat_beq k id ≡ false
    → lookup id (forget b k).pending ≡ lookup id b.pending
unfolding forget
forget-other b k id n = lookup-delete_ne k id b.pending n

module _ (c : Option HttpResult) (k id : ℕ) (r : HttpResult) (more : List Event) where
  first_of-same :
      nat_beq k id ≡ true
      → first_of c id (result_comes k r ∷ more)
        ≡ first_of (some (elim c [ none ↦ r | some full ↦ full ])) id more
  unfolding first_of
  first_of-same t = elim (Option-cases c) [
    | inl e ↦ ground (arith, e, t)
    | inr (f, e) ↦ ground (arith, e, t)
  ]

  first_of-other :
      nat_beq k id ≡ false → first_of c id (result_comes k r ∷ more) ≡ first_of c id more
  unfolding first_of
  first_of-other n = ground (arith, n)

first_of-ends :
    (c : Option HttpResult) (k id : ℕ) (more : List Event)
    → first_of c id (request_ends k ∷ more) ≡ first_of c id more
unfolding first_of
first_of-ends none k id more = refl
first_of-ends (some r) k id more = refl

first_of-none : (c : Option HttpResult) (id : ℕ) → first_of c id [] ≡ c
unfolding first_of
first_of-none none id = refl
first_of-none (some r) id = refl

result_there-run_events :
    (b : HttpProxyBroker) (events : List Event) (id : ℕ) (p : PendingRequest)
    → lookup id b.pending ≡ some p
    → goes_on id events ≡ true
    → result_there (lookup id (run_events b events).pending) ≡ first_of p.resp_ch id events
unfolding run_events happens goes_on first_of result_there
result_there-run_events b [] id p e g = ap result_there e ∙ sym (first_of-none p.resp_ch id)
result_there-run_events b (result_comes k r ∷ more) id p e g = elim (beq_cases k id) [
  | inl (t, h) ↦
      (let (q, l, c) = offer-same b id r p e in
        ap (λ j. result_there (lookup id (run_events (offer b j r).0 more).pending)) h
        ∙ result_there-run_events (offer b id r).0 more id q l g
        ∙ ap (λ o. first_of o id more) c
        ∙ sym (first_of-same p.resp_ch k id r more t))
  | inr n ↦
      result_there-run_events (offer b k r).0 more id p (offer-other b k id r n ∙ e) g
      ∙ sym (first_of-other p.resp_ch k id r more n)
]
result_there-run_events b (request_ends k ∷ more) id p e g = elim (beq_cases k id) [
  | inl (t, h) ↦ absurd (ground (arith, g, t))
  | inr n ↦
      result_there-run_events (forget b k) more id p (forget-other b k id n ∙ e)
        (ground (arith, g, n))
      ∙ sym (first_of-ends p.resp_ch k id more)
]

-- A request that is sent to a connected node gets the first result that comes for its id, whatever
-- comes for other requests or ends them and however many results come; and the broker has forgotten
-- the request then.
pub await_response-start_request :
    (codec : Codec HttpRequestMsg) (b : HttpProxyBroker) (session : ℕ) (node_id : String)
    (req : HttpRequestMsg) (events : List Event) (r : HttpResult)
    → let (sent, how) = start_request codec b (some session) node_id req true in
      let id = alloc_request_id b.next_request_id in
      goes_on id events ≡ true
      → first_of none id events ≡ some r
      → let (b', answer) = await_response (run_events sent events) id false false in
        (how ≡ awaits id (request_frame codec id req))
        × (answer ≡ answered r)
        × (lookup id b'.pending ≡ none)
unfolding start_request await_response add_pending forget
await_response-start_request codec b session node_id req events r g f =
    let id = alloc_request_id b.next_request_id in
    let sent = (start_request codec b (some session) node_id req true).0 in
    let p : PendingRequest = record { id = id; node_id = node_id; resp_ch = none } in
    let there : result_there (lookup id (run_events sent events).pending) ≡ some r =
      result_there-run_events sent events id p (lookup-insert_self id p b.pending) g ∙ f in
    ground (arith, there, lookup-delete_self id (run_events sent events).pending)

await_response-late :
    (b : HttpProxyBroker) (id : ℕ) → await_response b id true true ≡ (forget b id, timed_out)
unfolding await_response
await_response-late b id = elim (Option-cases (result_there (lookup id b.pending))) [
  | inl e ↦ ground (arith, e)
  | inr (r, e) ↦ ground (arith, e)
]

-- However `SendRequest` fails, nothing stays behind: for a node that is not connected the broker is
-- unchanged; after an error of the write, and after a timeout that is taken, it knows the id of the
-- request no more and every request of another id as before.
pub start_request-errors :
    (codec : Codec HttpRequestMsg) (b : HttpProxyBroker) (session k : ℕ) (node_id : String)
    (req : HttpRequestMsg)
    → let id = alloc_request_id b.next_request_id in
      let (failed, how) = start_request codec b (some session) node_id req false in
      let (sent, waits) = start_request codec b (some session) node_id req true in
      let (late, answer) = await_response sent id true true in
      nat_beq id k ≡ false
      → (start_request codec b none node_id req true ≡ (b, not_connected))
        × (how ≡ write_failed)
        × (lookup id failed.pending ≡ none)
        × (lookup k failed.pending ≡ lookup k b.pending)
        × (answer ≡ timed_out)
        × (lookup id late.pending ≡ none)
        × (lookup k late.pending ≡ lookup k b.pending)
unfolding start_request add_pending forget
start_request-errors codec b session k node_id req n =
    let id = alloc_request_id b.next_request_id in
    let p : PendingRequest = record { id = id; node_id = node_id; resp_ch = none } in
    let pending = insert id p b.pending in
    let sent = add_pending b id node_id in
    let gone = lookup-delete_self id pending in
    let kept = lookup-delete_ne id k pending n ∙ lookup-insert_ne id k p b.pending n in
    let late = await_response-late sent id in
    (
      refl,
      refl,
      gone,
      kept,
      ap (λ t. t.1) late,
      ap (λ t. lookup id t.0.pending) late ∙ gone,
      ap (λ t. lookup k t.0.pending) late ∙ kept,
    )
