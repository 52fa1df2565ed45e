-- ===== src/Config/Validate.antt =====
-- internal/config/config.go: validation. An error keeps its kind; the indices and names that its
-- text mentions are left out.
use accel_proxy.Common.{
  Bool, List, Option, String, [], bool_eq, false, if◌then◌else◌, is_some, nat_eq, none, not,
  pair_eq, some, string_eq, true, ◌&&◌, ◌*◌, ◌==◌, ◌∷◌,
}
use accel_proxy.Common.Int.{int_eq, is_zero, ltz, pos, ℤ}
use accel_proxy.Common.Dict.{Dict, insert, lookup}
use accel_proxy.Config.{
  AccessConfig, Config, EgressConfig, HopAddr, IdcRoute, RelayConfig, RouteGroup, ServiceConfig,
  TunnelConfig, hop_addr_type_domain, hop_addr_type_ip,
}

pub data ConfigError : Type 0 where
  no_node_id no_role frame_size_over no_port duplicate_port no_target_idc no_groups : ConfigError
  no_rewrite_value no_hops no_listen_addr no_routes no_idc no_node_idc : ConfigError
  no_origin_host no_origin_port no_type no_addr no_sni host_set unknown_type : ConfigError

-- `if b { return e }`, and what comes after it
abbrev pub reject_if : Bool → ConfigError → Option ConfigError → Option ConfigError
reject_if b e rest = if b then some e else rest

-- `if err != nil { return err }`, and what comes after it
abbrev pub or_else : Option ConfigError → Option ConfigError → Option ConfigError
or_else none rest = rest
or_else (some e) rest = some e

-- A `range` loop that returns the first error.
unfoldable pub first_error {ℓ} :
    {A : Type ℓ} → (A → Option ConfigError) → List A → Option ConfigError
first_error f [] = none
first_error f (x ∷ xs) = or_else (f x) (first_error f xs)

abbrev pub is_empty {ℓ} : {A : Type ℓ} → List A → Bool
is_empty [] = true
is_empty (x ∷ xs) = false

unfoldable pub validate_hop : HopAddr → Option ConfigError
validate_hop h = reject_if (h.type == "") no_type (
    reject_if (h.addr == "") no_addr (
      reject_if (is_zero h.port) no_port (
        if h.type == hop_addr_type_ip
        then reject_if (h.tls && h.host == "") no_sni none
        else if h.type == hop_addr_type_domain
        then reject_if (not (h.host == "")) host_set none
        else some unknown_type)))

unfoldable pub validate_group : RouteGroup → Option ConfigError
validate_group g = reject_if (is_empty g.hops) no_hops (first_error validate_hop g.hops)

abbrev pub max_allowed_frame_size : ℤ
max_allowed_frame_size = pos (16 * 1024 * 1024)

-- The loop over the access services, with the ports seen so far.
unfoldable pub validate_ports : Dict ℤ Bool → List ServiceConfig → Option ConfigError
validate_ports ports [] = none
validate_ports ports (svc ∷ svcs) = reject_if (is_zero svc.port) no_port (
    reject_if (is_some (lookup svc.port ports)) duplicate_port (
      reject_if (svc.target_idc == "") no_target_idc (
        reject_if (is_empty svc.groups) no_groups (
          reject_if (svc.http.rewrite_host && svc.http.rewrite_host_value == "") no_rewrite_value (
            or_else (first_error validate_group svc.groups)
              (validate_ports (insert svc.port true ports) svcs))))))

unfoldable pub validate_access : AccessConfig → Option ConfigError
validate_access a =
    reject_if (ltz max_allowed_frame_size a.max_frame_size) frame_size_over
      (validate_ports [] a.services)

unfoldable pub validate_route : IdcRoute → Option ConfigError
validate_route r =
    reject_if (r.idc == "") no_idc
      (reject_if (is_empty r.groups) no_groups (first_error validate_group r.groups))

unfoldable pub validate_relay_service : ServiceConfig → Option ConfigError
validate_relay_service svc =
    reject_if (is_empty svc.routes) no_routes (first_error validate_route svc.routes)

pub default_timeout : ℤ → ℤ → ℤ
default_timeout d t = if is_zero t then d else t

-- in nanoseconds
abbrev pub default_read_timeout : ℤ
default_read_timeout = pos 60000000000

abbrev pub default_write_timeout : ℤ
default_write_timeout = pos 60000000000

pub with_timeouts : TunnelConfig → TunnelConfig
unfolding default_timeout
with_timeouts t = record t {
  read_timeout = default_timeout default_read_timeout t.read_timeout;
  write_timeout = default_timeout default_write_timeout t.write_timeout;
}

unfoldable pub validate_relay : RelayConfig → RelayConfig × Option ConfigError
validate_relay r =
    if r.tunnel.listen_addr == ""
    then (r, some no_listen_addr)
    else if ltz max_allowed_frame_size r.tunnel.max_frame_size
    then (r, some frame_size_over)
    else (
      record r { tunnel = with_timeouts r.tunnel },
      first_error validate_relay_service r.services,
    )

unfoldable pub validate_origin : ServiceConfig → Option ConfigError
validate_origin svc =
    reject_if (svc.origin.host == "") no_origin_host
      (reject_if (is_zero svc.origin.port) no_origin_port none)

unfoldable pub validate_egress : String → EgressConfig → EgressConfig × Option ConfigError
validate_egress node_idc e =
    if e.tunnel.listen_addr == ""
    then (e, some no_listen_addr)
    else if node_idc == ""
    then (e, some no_node_idc)
    else if ltz max_allowed_frame_size e.tunnel.max_frame_size
    then (e, some frame_size_over)
    else (record e { tunnel = with_timeouts e.tunnel }, first_error validate_origin e.services)

-- A role section that is configured, through its validation.
unfoldable pub validate_section {ℓ} :
    {A : Type ℓ} → (A → A × Option ConfigError) → Option A → Option A × Option ConfigError
validate_section f none = (none, none)
validate_section f (some a) = (some (f a).0, (f a).1)

-- `Config.validate`: the configuration with its defaults, and the error.
unfoldable pub validate : Config → Config × Option ConfigError
unfolding validate_section
validate c =
    let (access, access_error) = validate_section (λ a. (a, validate_access a)) c.access in
    let (relay, relay_error) = validate_section validate_relay c.relay in
    let (egress, egress_error) = validate_section (validate_egress c.node_idc) c.egress in
    if c.node_id == ""
    then (c, some no_node_id)
    else if not (is_some c.access) && not (is_some c.relay) && not (is_some c.egress)
    then (c, some no_role)
    else if is_some access_error
    then (c, access_error)
    else if is_some relay_error
    then (record c { relay = relay }, relay_error)
    else (record c { relay = relay; egress = egress }, egress_error)
