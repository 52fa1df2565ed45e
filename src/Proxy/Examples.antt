-- ===== src/Proxy/Examples.antt =====
-- The theorem about internal/proxy at a concrete request.
use accel_proxy.Proxy.{
  Header, Http, connection_has_close, del, del_all, forwarded_for, get, is_web_socket_upgrade,
  mutate_headers, set, set_all, strip,
}
use accel_proxy.Proxy.Forwarding.{mutate_headers_lem}
use accel_proxy.Common.{
  All, [], bool_eq, false, nat_eq, none, pair_eq, refl, string_eq, ◌==◌, ◌∷◌, ◌≡◌,
}
use accel_proxy.Common.Dict.{delete, insert, lookup}
use accel_proxy.Common.Int.{int_eq, pos}
use accel_proxy.Config.{ServiceConfig}

abbrev a_service : ServiceConfig
a_service = record {
  id = "web";
  port = pos 80;
  protocol = "http";
  target_idc = "sh";
  groups = [];
  routes = [];
  origin = record {
    host = "";
    port = pos 0;
    tls = false;
    dial_timeout = pos 0;
    connect_timeout = pos 0;
  };
  http = record {
    add_request_headers = ("X-Site", "a") ∷ [];
    remove_request_headers = "Cookie" ∷ [];
    rewrite_host = false;
    rewrite_host_value = "";
  };
}

abbrev http : Http
http = record {
  canonical = λ name. name;
  equal_fold = λ a b. a == b;
  contains_upgrade = λ v. v == "upgrade";
  tokens = λ v. v ∷ [];
}

-- The client asks to close the connection.
abbrev closing : Header
closing = ("Connection", "close" ∷ []) ∷ ("Cookie", "c" ∷ []) ∷ []

closing-plain :
    is_web_socket_upgrade http (mutate_headers http a_service closing "10.0.0.1") ≡ false
unfolding is_web_socket_upgrade mutate_headers strip get set del del_all set_all forwarded_for
    insert delete lookup
closing-plain = refl

mutate_headers_example :
    let sent = mutate_headers http a_service closing "10.0.0.1" in
    All
      (λ name. lookup name sent ≡ none)
      ("Connection" ∷ "Keep-Alive" ∷ "Proxy-Authenticate" ∷ "Proxy-Authorization" ∷ "TE"
        ∷ "Trailers" ∷ [])
    × (connection_has_close http sent ≡ false)
mutate_headers_example = mutate_headers_lem http a_service closing "10.0.0.1" refl closing-plain
