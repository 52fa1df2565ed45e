-- ===== src/Node/Egress.antt =====
-- internal/node/egress.go: `EgressNode`, its table of origins, and the origin that a tunnel is joined
-- to. Durations are in nanoseconds.
use accel_proxy.Common.{
  Bool, List, String, [], bool_eq, if◌then◌else◌, length, nat_beq, nat_eq, none, not, pair_eq, some,
  string_eq, text_append, ◌*◌, ◌==◌, ◌^◌, ◌||◌, ◌∷◌,
}
use accel_proxy.Common.Int.{int_eq, is_zero, pos, ℤ}
use accel_proxy.Common.Dict.{Dict, insert, lookup}
use accel_proxy.Config.{ServiceConfig, decimal}
use accel_proxy.Tunnel.Handshake.{HandshakeRequest}

pub record OriginEntry : Type 0 where
  pub host : String
  pub port : ℤ
  pub use_tls : Bool
  pub dial_timeout : ℤ

pub addr_of : OriginEntry → String
addr_of e = text_append e.host (text_append ":" (decimal e.port))

-- internal/node/node.go: `OriginUpdate`
pub record OriginUpdate : Type 0 where
  pub host : String
  pub port : ℤ
  pub tls : Bool
  pub dial_timeout : ℤ

abbrev pub OriginTable : Type 0
OriginTable = Dict String OriginEntry

pub record EgressNode : Type 0 where
  pub node_id : String
  pub node_idc : String
  pub origins : OriginTable

-- 10 s where none is given.
pub or_ten_seconds : ℤ → ℤ
or_ten_seconds d = if is_zero d then pos (10 * 10 ^ 9) else d

pub update_origins : OriginTable → Dict String OriginUpdate → OriginTable
update_origins current [] = current
update_origins current ((svc, upd) ∷ more) =
    update_origins
      (insert svc
        (record {
          host = upd.host;
          port = upd.port;
          use_tls = upd.tls;
          dial_timeout = or_ten_seconds upd.dial_timeout;
        })
        current)
      more

pub reload_origins : EgressNode → Dict String OriginUpdate → EgressNode
reload_origins n origins =
    let next = update_origins n.origins origins in
    if nat_beq (length origins) 0 then n else record n { origins = next }

pub build_origin_table : List ServiceConfig → OriginTable → OriginTable
build_origin_table [] tbl = tbl
build_origin_table (svc ∷ more) tbl = build_origin_table more (
    insert svc.id
      (record {
        host = svc.origin.host;
        port = svc.origin.port;
        use_tls = svc.origin.tls;
        dial_timeout = or_ten_seconds svc.origin.dial_timeout;
      })
      tbl)

pub new_egress_node : String → String → List ServiceConfig → EgressNode
new_egress_node node_id node_idc services = record {
  node_id = node_id;
  node_idc = node_idc;
  origins = build_origin_table services [];
}

-- What `handleTunnel` decides: it drops the tunnel, or dials an address, with TLS or without it.
pub data Origin : Type 0 where
  idc_mismatch unknown_service : Origin
  dials_origin : String → Bool → ℤ → Origin

pub origin_for : EgressNode → HandshakeRequest → Origin
origin_for n req = elim (lookup req.service_id n.origins) [
  | none ↦ if not (req.target_idc == n.node_idc) then idc_mismatch else unknown_service
  | some e ↦
      if not (req.target_idc == n.node_idc)
      then idc_mismatch
      else dials_origin (addr_of e) (e.use_tls || req.protocol == "https") e.dial_timeout
]
