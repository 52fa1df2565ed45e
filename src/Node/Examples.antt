-- ===== src/Node/Examples.antt =====
-- The theorems about internal/node at concrete inputs.
use accel_proxy.Common.{
  [], bool_eq, nat_eq, pair_eq, refl, reverse, sink, sort, sort_onto, string_eq, true, ℕ, ◌+◌, ◌∷◌,
  ◌≡◌, ◌≤◌, ◌⊎◌,
}
use accel_proxy.Common.Int.{int_eq, pos}
use accel_proxy.Config.{
  HopAddr, RouteGroup, all_hops, higher, hops_for_idc, sort_groups, sorted_groups,
}
use accel_proxy.Tunnel.Handshake.{HandshakeRequest}
use accel_proxy.Common.Dict.{lookup}
use accel_proxy.Node.Relay.{RouteTable, dials, forward, route}
use accel_proxy.Node.Relay.Hops.{Relayed, arrives, relayed, relayed_lem}

abbrev request : HandshakeRequest
request = record {
  version = pos 1;
  service_id = "web";
  target_idc = "bj";
  protocol = "http";
  client_ip = "10.0.0.1";
  hop_count = pos 14;
  metadata = [];
  timestamp = pos 0;
  signature = "";
}

abbrev one : ℕ
one = 1

abbrev hop : HopAddr
hop = record {
  type = "domain";
  addr = "relay";
  port = pos 443;
  host = "";
  tls = true;
  tunnel_path = "";
}

abbrev group : RouteGroup
group = record { name = "main"; priority = pos 1; weight = pos 1; hops = hop ∷ [] }

abbrev table : RouteTable
table = ("web", record { idc = "bj"; groups = group ∷ [] } ∷ []) ∷ []

goes_on : route table request ≡ dials (hop ∷ []) (forward request)
unfolding route forward hops_for_idc sort_groups sorted_groups all_hops higher sort sink sort_onto
    reverse lookup
goes_on = refl

forward-Relayed : Relayed request one (forward request)
forward-Relayed = relayed table (hop ∷ []) arrives goes_on

relayed_example :
    ((one ≡ 0) ⊎ (14 + one ≤ 16))
    × ((forward request).hop_count ≡ pos (14 + one))
    × ((forward request).service_id ≡ request.service_id)
    × ((forward request).target_idc ≡ request.target_idc)
    × ((forward request).protocol ≡ request.protocol)
    × ((forward request).client_ip ≡ request.client_ip)
relayed_example = relayed_lem request (forward request) 14 one refl forward-Relayed
