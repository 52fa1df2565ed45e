-- ===== src/Node/Relay.antt =====
-- internal/node/relay.go: `RelayNode`, its table of routes and its dialers, and what it does with a
-- tunnel that comes in. A dialer is its pool of next hops.
pub mod Hops
use accel_proxy.Common.{
  Bool, List, String, [], bool_eq, false, if◌then◌else◌, length, nat_beq, nat_eq, none, pair_eq,
  some, string_eq, true, ◌==◌, ◌∷◌,
}
use accel_proxy.Common.Int.{int_eq, ltz, pos, ◌+ℤ◌}
use accel_proxy.Common.Dict.{Dict, insert, lookup}
use accel_proxy.Config.{HopAddr, IdcRoute, ServiceConfig, equal_hop_addrs, hops_for_idc}
use accel_proxy.Tunnel.Handshake.{HandshakeRequest, max_hop_count}
use accel_proxy.Tunnel.HopPool.{Float, HopPool, addrs, update_endpoints}

abbrev pub RouteTable : Type 0
RouteTable = Dict String (List IdcRoute)

-- The service and the IDC of a dialer.
abbrev pub DialerKey : Type 0
DialerKey = String × String

pub record RelayNode (F : Type 0) : Type 0 where
  pub node_id : String
  pub psk : String
  pub routes : RouteTable
  pub dialers : Dict DialerKey (HopPool F)

-- `buildRouteTable`: an error, with the id of a service that has no routes, or the table.
pub data Built : Type 0 where
  no_routes : String → Built
  built : RouteTable → Built

pub build_route_table : List ServiceConfig → RouteTable → Built
build_route_table [] tbl = built tbl
build_route_table (svc ∷ more) tbl =
    let rest = build_route_table more (insert svc.id svc.routes tbl) in
    if nat_beq (length svc.routes) 0 then no_routes svc.id else rest

-- The routes that a reload brings replace those of their services.
pub merge_routes : RouteTable → RouteTable → RouteTable
merge_routes current [] = current
merge_routes current ((svc, routes) ∷ more) = merge_routes (insert svc routes current) more

pub has_idc : List IdcRoute → String → Bool
has_idc [] idc = false
has_idc (r ∷ rs) idc = let rest = has_idc rs idc in if r.idc == idc then true else rest

-- Whether `cleanStaleDialers` keeps a dialer.
pub is_valid : RouteTable → DialerKey → Bool
is_valid routes (service_id, idc) = elim (lookup service_id routes) [
  | none ↦ false
  | some rs ↦ has_idc rs idc
]

pub clean_stale_dialers :
    {F : Type 0} → RouteTable → Dict DialerKey (HopPool F) → Dict DialerKey (HopPool F)
clean_stale_dialers routes [] = []
clean_stale_dialers routes ((key, pool) ∷ more) =
    let rest = clean_stale_dialers routes more in
    if is_valid routes key then (key, pool) ∷ rest else rest

pub reload : {F : Type 0} → RelayNode F → RouteTable → RelayNode F
reload n routes =
    let next = merge_routes n.routes routes in
    if nat_beq (length routes) 0
    then n
    else record n { routes = next; dialers = clean_stale_dialers next n.dialers }

module _ {F : Type 0} (fl : Float F) (new_hop_pool : List HopAddr → HopPool F) where
  -- `dialerFor`; `new_hop_pool` gives a pool of new endpoints.
  pub dialer_for : RelayNode F → String → String → List HopAddr → RelayNode F × HopPool F
  dialer_for n service_id idc next_hops =
      let key : DialerKey = (service_id, idc) in
      elim (lookup key n.dialers) [
        | none ↦
            (let pool = new_hop_pool next_hops in
              (record n { dialers = insert key pool n.dialers }, pool))
        | some pool ↦
            (let updated = update_endpoints fl pool next_hops in
              if equal_hop_addrs (addrs fl pool) next_hops
              then (n, pool)
              else (record n { dialers = insert key updated n.dialers }, updated))
      ]

-- The request that goes on to the next hop.
unfoldable pub forward : HandshakeRequest → HandshakeRequest
forward req = record req { hop_count = req.hop_count +ℤ pos 1 }

-- What `handleTunnel` decides: it drops the tunnel, or dials one of the next hops with the request.
pub data Routed : Type 0 where
  unknown_service no_route too_many_hops : Routed
  dials : List HopAddr → HandshakeRequest → Routed

unfoldable pub route : RouteTable → HandshakeRequest → Routed
route routes req = elim (lookup req.service_id routes) [
  | none ↦ unknown_service
  | some idc_routes ↦
      (let next_hops = hops_for_idc idc_routes req.target_idc in
        let next = forward req in
        if nat_beq (length next_hops) 0
        then no_route
        else if ltz max_hop_count next.hop_count
        then too_many_hops
        else dials next_hops next)
]
