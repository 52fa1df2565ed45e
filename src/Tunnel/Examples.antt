-- ===== src/Tunnel/Examples.antt =====
-- The theorems about internal/tunnel at concrete inputs, with natural numbers for latencies.
use accel_proxy.Common.{
  All, Bool, List, Option, String, [], ap, arith, bool_eq, drop, false, filter, if◌then◌else◌,
  length, ltb, map, nat_beq, nat_eq, none, not, pair_eq, refl, some, string_eq, sym, take,
  text_append, true, ℕ, ◌%◌, ◌*◌, ◌++◌, ◌+◌, ◌-◌, ◌<◌, ◌==◌, ◌↔◌, ◌∙◌, ◌∷◌, ◌≡◌, ◌≢◌, ◌≤◌, ◌⊎◌,
}
use accel_proxy.Common.Int.{int_eq, ltz, pos, pos_part, ℤ, ◌-ℤ◌}
use accel_proxy.Config.{HopAddr, decimal, digit, digits, identity, path_of}
use accel_proxy.Tunnel.Handshake.{
  HandshakeError, HandshakeRequest, answer_handshake, magnitude, ok_response, sign_request,
  signed_text,
}
use accel_proxy.Tunnel.Handshake.Signing.{answer_handshake-sign_request, answer_handshake_lem}
use accel_proxy.Tunnel.Transport.{Transport, write}
use accel_proxy.Tunnel.Transport.Chunks.{Written, write-Written}
use accel_proxy.Tunnel.HopPool.{
  Float, HopPool, Store, addrs, dial_loop, latency_pick, round_robin_pick, update_endpoints,
}
use accel_proxy.Tunnel.HopPool.Picking.{Ascending, Eligible, latency_pick_lem, round_robin_pick_lem}
use accel_proxy.Tunnel.HopPool.Indexing.{DistinctIds, Reuses}
use accel_proxy.Tunnel.HopPool.Reload.{SameHistory, update_endpoints_lem}
use accel_proxy.Tunnel.HopPool.Dialing.{Apart, dial_loop-alive, dial_loop_lem, first_tunnel}

abbrev nat_float : Float ℕ
nat_float = record {
  less = ltb;
  plus = λ a b. a + b;
  times = λ a b. a * b;
  of_millis = pos_part;
  max_float = 1000000;
  alpha = 1;
  one_less_alpha = 4;
}

abbrev hop_at : String → HopAddr
hop_at addr = record {
  type = "domain";
  addr = addr;
  port = pos 443;
  host = "";
  tls = true;
  tunnel_path = "";
}

abbrev a_store : Store ℕ
a_store i = record { addr = hop_at "a"; alive = true; latency_ewma = 10; latency_samples = 1 }

abbrev a_pool : HopPool ℕ
a_pool = record { store = a_store; next = 1; endpoints = 0 ∷ []; counter = 0 }

-- The endpoint that the pool has, at another host, and a new one.
abbrev new_hops : List HopAddr
new_hops = hop_at "b" ∷ record (hop_at "a") { host = "h" } ∷ []

hops_differ : (identity (hop_at "b") == identity (record (hop_at "a") { host = "h" })) ≡ false
unfolding identity path_of decimal digits digit
hops_differ = refl

new_hops-DistinctIds : DistinctIds new_hops
unfolding DistinctIds
new_hops-DistinctIds = (
  (
    (λ e.
        let t = (string_eq.beq_iff (identity (hop_at "b")) _).1 e in
        let q : true ≡ false = sym t ∙ hops_differ in cc),
    tt,
  ),
  (tt, tt),
)

update_endpoints_example :
    (addrs nat_float (update_endpoints nat_float a_pool new_hops) ≡ new_hops)
    × Reuses a_store (0 ∷ []) new_hops (update_endpoints nat_float a_pool new_hops).endpoints
    × ((j : ℕ)
        → j < 1
        → SameHistory nat_float ((update_endpoints nat_float a_pool new_hops).store j) (a_store j))
unfolding DistinctIds addrs
update_endpoints_example =
    update_endpoints_lem nat_float a_pool new_hops (omega arith, tt) (tt, tt) new_hops-DistinctIds

-- The second attempt succeeds.
abbrev second_works : ℕ → HopAddr → Option ℕ × ℤ
second_works k a = if nat_beq k 1 then (some 7, pos 20) else (none, pos 3)

dial_loop_example :
    (dial_loop nat_float second_works 0 a_store (0 ∷ 1 ∷ [])).1
    ≡ first_tunnel second_works 0 (map (λ i. (a_store i).addr) (0 ∷ 1 ∷ []))
dial_loop_example = dial_loop_lem nat_float second_works 0 a_store (0 ∷ 1 ∷ [])

abbrev none_works : ℕ → HopAddr → Option ℕ × ℤ
none_works k a = (none, pos 3)

apart : Apart nat_float (0 ∷ 1 ∷ [])
unfolding Apart
apart = (((λ p. absurd (omega arith)), tt), (tt, tt))

all_fail : (dial_loop nat_float none_works 0 a_store (0 ∷ 1 ∷ [])).1 ≡ none
unfolding dial_loop
all_fail = refl

dial_loop-alive_example :
    All
      (λ i. ((dial_loop nat_float none_works 0 a_store (0 ∷ 1 ∷ [])).0 i).alive ≡ false)
      (0 ∷ 1 ∷ [])
dial_loop-alive_example = dial_loop-alive nat_float none_works 0 a_store (0 ∷ 1 ∷ []) apart all_fail

-- Of three endpoints the second one is dead.
abbrev mixed : Store ℕ
mixed i = record {
  addr = hop_at "a";
  alive = not (nat_beq i 1);
  latency_ewma = 10 - i;
  latency_samples = 1;
}

abbrev three : List ℕ
three = 0 ∷ 1 ∷ 2 ∷ []

round_robin_pick_example :
    (from : List ℕ) × Eligible nat_float mixed three from
    × (round_robin_pick nat_float 5 mixed three
        ≡ some (drop (5 % length from) from ++ take (5 % length from) from))
round_robin_pick_example = round_robin_pick_lem nat_float 5 mixed three (omega arith) (omega arith)

latency_pick_example :
    Ascending nat_float mixed (latency_pick nat_float mixed three)
    × ((from : List ℕ) × Eligible nat_float mixed three from
        × ((i : ℕ)
            → filter (nat_beq i) (latency_pick nat_float mixed three) ≡ filter (nat_beq i) from))
latency_pick_example =
    latency_pick_lem nat_float mixed three (λ a b h. ground arith) (λ a b c h k. ground arith)

abbrev hash : String → String → String
hash k text = text_append k text

abbrev key : String
key = "key"

abbrev describe : HandshakeError → String
describe e = "refused"

abbrev request : HandshakeRequest
request = record {
  version = pos 1;
  service_id = "web";
  target_idc = "bj";
  protocol = "http";
  client_ip = "10.0.0.1";
  hop_count = pos 2;
  metadata = [];
  timestamp = pos 100;
  signature = "";
}

request-target : request.target_idc ≢ ""
request-target = λ e. (let q : false ≡ true = ap (λ s. s == "") e in cc)

answer_handshake_example :
    let (response, accepted) = answer_handshake hash describe "n1" key (pos 150) request in
    (accepted ≡ true) ↔ (
      (request.version ≡ pos 1)
      × (ltz (pos 16) request.hop_count ≡ false)
      × (request.target_idc ≢ "")
      × ((key ≡ "")
          ⊎ ((key ≢ "")
              × (magnitude (pos 150 -ℤ request.timestamp) ≤ 60)
              × (request.signature ≡ hash key (signed_text request)))))
answer_handshake_example = answer_handshake_lem hash describe "n1" key (pos 150) request

recent : magnitude (pos 130 -ℤ pos 100) ≤ 60
unfolding magnitude
recent = omega arith

answer_handshake-sign_request_example :
    answer_handshake hash describe "n1" key (pos 130) (sign_request hash (pos 100) request key)
    ≡ (ok_response "n1", true)
answer_handshake-sign_request_example =
    answer_handshake-sign_request hash describe "n1" key (pos 100) (pos 130) request refl refl
      request-target recent

abbrev small_frames : Transport
small_frames = record { frame_size = 2; dead = false; sent = []; close_sent = false }

-- The third message cannot be written.
abbrev two_written : ℕ → Bool
two_written k = ltb k 2

write-Written_example :
    let (t', total, e) = write two_written small_frames (1 ∷ 2 ∷ 3 ∷ 4 ∷ 5 ∷ []) in
    Written small_frames (1 ∷ 2 ∷ 3 ∷ 4 ∷ 5 ∷ []) t' total e
write-Written_example =
    write-Written two_written small_frames (1 ∷ 2 ∷ 3 ∷ 4 ∷ 5 ∷ []) (omega arith) refl
