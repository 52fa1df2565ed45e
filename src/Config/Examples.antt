-- ===== src/Config/Examples.antt =====
-- The theorems about internal/config at concrete inputs.
use accel_proxy.Config.Order.{Descending, has_priority, hops_of, sort_groups_lem}
use accel_proxy.Common.{List, [], false, filter, none, some, true, ◌↔◌, ◌∷◌, ◌≡◌}
use accel_proxy.Common.Int.{pos, ℤ}
use accel_proxy.Config.{Config, HopAddr, RouteGroup, ServiceConfig, sort_groups}
use accel_proxy.Config.Validate.{validate}
use accel_proxy.Config.WellFormed.{IsConfig}
use accel_proxy.Config.Accepted.{validate_lem}

abbrev a_hop : HopAddr
a_hop = record {
  type = "domain";
  addr = "relay.example";
  port = pos 443;
  host = "";
  tls = true;
  tunnel_path = "";
}

abbrev groups : List RouteGroup
groups =
    record { name = "slow"; priority = pos 1; weight = pos 1; hops = a_hop ∷ [] }
    ∷ record { name = "fast"; priority = pos 9; weight = pos 1; hops = a_hop ∷ a_hop ∷ [] }
    ∷ []

sort_groups_example :
    (sorted : List RouteGroup) × (sort_groups groups ≡ hops_of sorted)
    × Descending sorted
    × ((p : ℤ) → filter (has_priority p) sorted ≡ filter (has_priority p) groups)
sort_groups_example = sort_groups_lem groups

abbrev a_service : ServiceConfig
a_service = record {
  id = "web";
  port = pos 80;
  protocol = "http";
  target_idc = "sh";
  groups = groups;
  routes = [];
  origin = record {
    host = "";
    port = pos 0;
    tls = false;
    dial_timeout = pos 0;
    connect_timeout = pos 0;
  };
  http = record {
    add_request_headers = [];
    remove_request_headers = [];
    rewrite_host = false;
    rewrite_host_value = "";
  };
}

abbrev a_config : Config
a_config = record {
  node_id = "n1";
  node_idc = "";
  access = some (record { max_frame_size = pos 0; services = a_service ∷ [] });
  relay = none;
  egress = none;
}

validate_example : ((validate a_config).1 ≡ none) ↔ IsConfig a_config
validate_example = validate_lem a_config
