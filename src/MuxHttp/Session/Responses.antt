-- ===== src/MuxHttp/Session/Responses.antt =====
-- The HTTP responses of one edge, whose frames come interleaved.
use accel_proxy.Common.{
  List, Option, Option-cases, [], ap, append-nil, append_assoc, arith, beq_cases, bool_eq, false,
  if◌then◌else◌, inl, inr, map, nat_beq, nat_eq, none, pair_eq, refl, some, string_eq, subst, sym,
  ℕ, ◌++◌, ◌∙◌, ◌∷◌, ◌≡◌,
}
use accel_proxy.Common.Dict.{
  Dict, lookup, lookup-delete_ne, lookup-delete_self, lookup-insert_ne, lookup-insert_self,
}
use accel_proxy.MuxHttp.Session.{
  HttpResult, Part, ResponseAccumulator, complete_result, error_result, handle_part, response_body,
  response_end, response_error, response_head,
}
use accel_proxy.MuxHttp.Messages.{HttpResponseHeadMsg}
use accel_proxy.Wire.{Bytes}

-- The results that the frames of a connection give, each for its request.
unfoldable pub run_parts : Dict ℕ ResponseAccumulator → List (ℕ × Part) → List (ℕ × HttpResult)
run_parts buf [] = []
run_parts buf ((id, part) ∷ more) =
    let (buf', result) = handle_part buf id part in
    let rest = run_parts buf' more in elim result [ none ↦ rest | some r ↦ (id, r) ∷ rest ]

-- What belongs to one request.
unfoldable pub only {ℓ} : {A : Type ℓ} → ℕ → List (ℕ × A) → List A
only id [] = []
only id ((k, a) ∷ more) = let rest = only id more in if nat_beq k id then a ∷ rest else rest

-- One request alone: its part of the response so far, and the result of a frame.
unfoldable pub alone :
    Option ResponseAccumulator → Part → Option ResponseAccumulator × Option HttpResult
alone acc (response_head msg) = (some (record { head = msg; body = [] }), none)
alone none (response_body chunk) = (none, none)
alone (some acc) (response_body chunk) = (some (record acc { body = acc.body ++ chunk }), none)
alone none response_end = (none, none)
alone (some acc) response_end = (none, some (complete_result acc))
alone acc (response_error msg) = (none, some (error_result msg))

unfoldable pub results_of : Option ResponseAccumulator → List Part → List HttpResult
results_of acc [] = []
results_of acc (part ∷ more) =
    let (acc', result) = alone acc part in
    let rest = results_of acc' more in elim result [ none ↦ rest | some r ↦ r ∷ rest ]

handle_part-other :
    (buf : Dict ℕ ResponseAccumulator) (k id : ℕ) (part : Part)
    → nat_beq k id ≡ false
    → lookup id (handle_part buf k part).0 ≡ lookup id buf
unfolding handle_part
handle_part-other buf k id (response_head msg) n =
    lookup-insert_ne k id (record { head = msg; body = [] }) buf n
handle_part-other buf k id (response_body chunk) n = elim (Option-cases (lookup k buf)) [
  | inl e ↦ ground (arith, e)
  | inr (acc, e) ↦
      ground (arith, e, lookup-insert_ne k id (record acc { body = acc.body ++ chunk }) buf n)
]
handle_part-other buf k id response_end n = lookup-delete_ne k id buf n
handle_part-other buf k id (response_error msg) n = lookup-delete_ne k id buf n

handle_part-same :
    (buf : Dict ℕ ResponseAccumulator) (id : ℕ) (part : Part)
    → (lookup id (handle_part buf id part).0, (handle_part buf id part).1)
      ≡ alone (lookup id buf) part
unfolding handle_part alone
handle_part-same buf id (response_head msg) =
    ap (λ t. (t, none)) (lookup-insert_self id (record { head = msg; body = [] }) buf)
handle_part-same buf id (response_body chunk) = elim (Option-cases (lookup id buf)) [
  | inl e ↦ ground (arith, e)
  | inr (acc, e) ↦
      ground (arith, e, lookup-insert_self id (record acc { body = acc.body ++ chunk }) buf)
]
handle_part-same buf id response_end = elim (Option-cases (lookup id buf)) [
  | inl e ↦ ground (arith, e, lookup-delete_self id buf)
  | inr (acc, e) ↦ ground (arith, e, lookup-delete_self id buf)
]
handle_part-same buf id (response_error msg) =
    ap (λ t. (t, some (error_result msg))) (lookup-delete_self id buf)

-- However the frames of the requests of an edge are interleaved, the results that a request gets are
-- those of its own frames alone, from the part of its response that was there.
pub only-run_parts :
    (buf : Dict ℕ ResponseAccumulator) (events : List (ℕ × Part)) (id : ℕ)
    → only id (run_parts buf events) ≡ results_of (lookup id buf) (only id events)
unfolding only run_parts results_of
only-run_parts buf [] id = refl
only-run_parts buf ((k, part) ∷ more) id =
    let (buf', result) = handle_part buf k part in
    elim (beq_cases k id) [
      | inl (t, e) ↦
          (let same =
              subst
                (λ j.
                  (lookup id (handle_part buf j part).0, (handle_part buf j part).1)
                  ≡ alone (lookup id buf) part)
                (sym e) (handle_part-same buf id part) in
            ground (arith, t, ap (λ r. r.0) same, ap (λ r. r.1) same, only-run_parts buf' more id))
      | inr n ↦ ground (arith, n, handle_part-other buf k id part n, only-run_parts buf' more id)
    ]

-- The frames of one whole response.
abbrev pub whole_response : HttpResponseHeadMsg → List Bytes → List Part
whole_response head chunks = response_head head ∷ (map response_body chunks ++ (response_end ∷ []))

unfoldable pub concat : List Bytes → Bytes
concat [] = []
concat (chunk ∷ more) = chunk ++ concat more

results_of-bodies :
    (acc : ResponseAccumulator) (chunks : List Bytes)
    → results_of (some acc) (map response_body chunks ++ (response_end ∷ []))
      ≡ complete_result (record acc { body = acc.body ++ concat chunks }) ∷ []
unfolding results_of alone concat complete_result
results_of-bodies acc [] =
    ap (λ b. complete_result (record acc { body = b }) ∷ []) (sym (append-nil acc.body))
results_of-bodies acc (chunk ∷ more) =
    results_of-bodies (record acc { body = acc.body ++ chunk }) more
    ∙ ap (λ b. complete_result (record acc { body = b }) ∷ [])
        (append_assoc acc.body chunk (concat more))

-- When the frames of a request are a head, any chunks of the body and the end, in this order, among
-- the frames of any other requests, the request gets exactly one result: the status and the headers
-- of the head, the chunks joined, and no error.
pub run_parts-whole :
    (buf : Dict ℕ ResponseAccumulator) (events : List (ℕ × Part)) (id : ℕ)
    (head : HttpResponseHeadMsg) (chunks : List Bytes)
    → only id events ≡ whole_response head chunks
    → only id (run_parts buf events)
      ≡ record {
        status_code = head.status_code;
        headers = head.headers;
        body = concat chunks;
        err = none;
      }
        ∷ []
unfolding results_of alone complete_result
run_parts-whole buf events id head chunks e =
    only-run_parts buf events id
    ∙ ap (results_of (lookup id buf)) e
    ∙ results_of-bodies (record { head = head; body = [] }) chunks
