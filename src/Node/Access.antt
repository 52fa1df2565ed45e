-- ===== src/Node/Access.antt =====
-- internal/node/access.go: `AccessNode`, its services and their reload, and the request with which a
-- connection of a client is taken to the target. A service that runs listens on its port; whether it
-- can is a parameter, and so is the making of a pool.
use accel_proxy.Common.{
  Bool, List, Option, String, [], bool_eq, false, if◌then◌else◌, is_some, length, nat_beq, nat_eq,
  none, pair_eq, some, string_eq, true, ◌*◌, ◌++◌, ◌==◌, ◌||◌, ◌∷◌,
}
use accel_proxy.Common.Int.{int_eq, is_zero, pos, ℤ}
use accel_proxy.Common.Dict.{Dict, insert, lookup}
use accel_proxy.Config.{HopAddr, RouteGroup, ServiceConfig, sort_groups}
use accel_proxy.Tunnel.Handshake.{HandshakeRequest, version}
use accel_proxy.Tunnel.HopPool.{HopPool}

-- `serviceInstance`, with the `serviceState` that it points to: the dialer's pool and the target.
pub record ServiceInstance (F : Type 0) : Type 0 where
  pub cfg : ServiceConfig
  pub pool : HopPool F
  pub target_idc : String
  pub has_l7_handler : Bool
  pub is_listening : Bool

-- `NewAccessNode` takes 64 KiB where no frame size is given.
pub access_frame_size : ℤ → ℤ
access_frame_size max_frame_size =
    if is_zero max_frame_size then pos (64 * 1024) else max_frame_size

-- The request of a connection, before it is signed.
pub client_request : {F : Type 0} → ServiceInstance F → String → HandshakeRequest
client_request inst client_addr = record {
  version = version;
  service_id = inst.cfg.id;
  target_idc = inst.target_idc;
  protocol = inst.cfg.protocol;
  client_ip = client_addr;
  hop_count = pos 0;
  metadata = [];
  timestamp = pos 0;
  signature = "";
}

pub stop_instance : {F : Type 0} → ServiceInstance F → ServiceInstance F
stop_instance inst = record inst { is_listening = false }

-- The services that a reload does not name are stopped and forgotten.
pub keep_incoming :
    {F : Type 0}
    → Dict String ServiceConfig
    → Dict String (ServiceInstance F)
    → Dict String (ServiceInstance F)
keep_incoming incoming [] = []
keep_incoming incoming ((id, inst) ∷ more) =
    let rest = keep_incoming incoming more in
    if is_some (lookup id incoming) then (id, inst) ∷ rest else rest

-- The map `incoming`.
pub by_id_of : List ServiceConfig → Dict String ServiceConfig → Dict String ServiceConfig
by_id_of [] m = m
by_id_of (svc ∷ more) m = by_id_of more (insert svc.id svc m)

module _ {F : Type 0} (new_hop_pool : List HopAddr → HopPool F) (can_listen : ℤ → Bool) where
  -- `newServiceInstance`: none without a hop.
  pub new_service_instance : ServiceConfig → Option (ServiceInstance F)
  new_service_instance svc =
      let hops = sort_groups svc.groups in
      if nat_beq (length hops) 0
      then none
      else some (record {
        cfg = svc;
        pool = new_hop_pool hops;
        target_idc = svc.target_idc;
        has_l7_handler = svc.protocol == "http" || svc.protocol == "https";
        is_listening = false;
      })

  -- `reloadGroups`
  pub reload_groups : ServiceInstance F → List RouteGroup → ServiceInstance F
  reload_groups inst groups =
      let hops = sort_groups groups in
      if nat_beq (length hops) 0
      then inst
      else record inst { pool = new_hop_pool hops; target_idc = inst.cfg.target_idc }

  -- The loop of `NewAccessNode`: the services, or none after an error.
  pub new_services :
      List ServiceConfig
      → Dict String (ServiceInstance F)
      → Option (Dict String (ServiceInstance F))
  new_services [] services = some services
  new_services (svc ∷ more) services = elim (new_service_instance svc) [
    | none ↦ none
    | some inst ↦ new_services more (insert svc.id inst services)
  ]

  -- `start`: none where the port cannot be listened on.
  pub start_instance : ServiceInstance F → Option (ServiceInstance F)
  start_instance inst =
      if can_listen inst.cfg.port then some (record inst { is_listening = true }) else none

  -- The loop of `AccessNode.Start` over the services, of which `started` have been: after an error
  -- those are stopped again.
  pub stop_all : Dict String (ServiceInstance F) → Dict String (ServiceInstance F)
  stop_all [] = []
  stop_all ((id, inst) ∷ more) = (id, stop_instance inst) ∷ stop_all more

  pub start_services :
      Dict String (ServiceInstance F)
      → Dict String (ServiceInstance F)
      → Dict String (ServiceInstance F) × Bool
  start_services started [] = (started, true)
  start_services started ((id, inst) ∷ more) = elim (start_instance inst) [
    | none ↦ (stop_all started ++ ((id, inst) ∷ more), false)
    | some running ↦ start_services (started ++ ((id, running) ∷ [])) more
  ]

  -- A service that a reload brings, and that is new: it is made and started, or left out.
  pub add_service :
      Dict String (ServiceInstance F) → String → ServiceConfig → Dict String (ServiceInstance F)
  add_service services id svc = elim (new_service_instance svc) [
    | none ↦ services
    | some inst ↦ elim (start_instance inst) [
      | none ↦ services
      | some running ↦ insert id running services
    ]
  ]

  -- The second loop of `Reload`.
  pub reload_services :
      Dict String (List RouteGroup)
      → Dict String (ServiceInstance F)
      → Dict String ServiceConfig
      → Dict String (ServiceInstance F)
  reload_services groups services [] = services
  reload_services groups services ((id, svc) ∷ more) = elim (lookup id services) [
    | none ↦ reload_services groups (add_service services id svc) more
    | some inst ↦ elim (lookup id groups) [
      | none ↦ reload_services groups services more
      | some gs ↦ reload_services groups (insert id (reload_groups inst gs) services) more
    ]
  ]

  -- `AccessNode.Reload`
  pub reload_access :
      Dict String (ServiceInstance F)
      → List ServiceConfig
      → Dict String (List RouteGroup)
      → Dict String (ServiceInstance F)
  reload_access services access_services groups =
      let incoming = by_id_of access_services [] in
      reload_services groups (keep_incoming incoming services) incoming
