-- ===== src/Config.antt =====
-- internal/config/config.go: the configuration's types, the methods of a hop's address, and the
-- order in which hops are tried. Numbers of type `int` and durations are integers; what the
-- environment decodes from YAML is a value of these types.
pub mod Order
pub mod Validate
pub mod WellFormed
pub mod Accepted
mod Examples
use accel_proxy.Common.{
  Bool, List, Option, String, [], bool_eq, false, get_or, if◌then◌else◌, ltb, nat_eq, pair_eq, sort,
  string_eq, suc, text_append, true, zero, ℕ, ◌%◌, ◌&&◌, ◌++◌, ◌/◌, ◌==◌, ◌∷◌,
}
use accel_proxy.Common.Int.{int_eq, ltz, negsuc, pos, ℤ}
use accel_proxy.Common.Dict.{Dict}

abbrev pub hop_addr_type_domain : String
hop_addr_type_domain = "domain"

abbrev pub hop_addr_type_ip : String
hop_addr_type_ip = "ip"

pub record HopAddr : Type 0 where
  pub type : String
  pub addr : String
  pub port : ℤ
  pub host : String
  pub tls : Bool
  pub tunnel_path : String

-- fmt.Sprintf("%d", n)
unfoldable pub digit : ℕ → String
digit n = get_or ("0" ∷ "1" ∷ "2" ∷ "3" ∷ "4" ∷ "5" ∷ "6" ∷ "7" ∷ "8" ∷ "9" ∷ []) n ""

-- Each round drops a digit, so as many rounds as the number are enough.
unfoldable pub digits : ℕ → ℕ → String
digits zero n = digit n
digits (suc fuel) n =
    let rest = digits fuel (n / 10) in
    if ltb n 10 then digit n else text_append rest (digit (n % 10))

unfoldable pub decimal : ℤ → String
unfolding digits digit
decimal (pos n) = digits n n
decimal (negsuc n) = text_append "-" (digits (suc n) (suc n))

pub sni_host : HopAddr → String
sni_host a = if a.type == hop_addr_type_ip then a.host else a.addr

-- The path, with its default.
unfoldable pub path_of : HopAddr → String
path_of a = if a.tunnel_path == "" then "/tunnel" else a.tunnel_path

unfoldable pub identity : HopAddr → String
unfolding path_of decimal digits digit
identity a = text_append a.type (
    text_append ":"
      (text_append a.addr (text_append ":" (text_append (decimal a.port) (path_of a)))))

unfoldable pub equal : HopAddr → HopAddr → Bool
equal a b =
    a.type == b.type
    && a.addr == b.addr
    && a.port == b.port
    && a.host == b.host
    && a.tls == b.tls
    && a.tunnel_path == b.tunnel_path

pub equal_hop_addrs : List HopAddr → List HopAddr → Bool
unfolding equal
equal_hop_addrs [] [] = true
equal_hop_addrs [] (b ∷ bs) = false
equal_hop_addrs (a ∷ more) [] = false
equal_hop_addrs (a ∷ more) (b ∷ bs) = equal a b && equal_hop_addrs more bs

pub record RouteGroup : Type 0 where
  pub name : String
  pub priority : ℤ
  pub weight : ℤ
  pub hops : List HopAddr

pub record IdcRoute : Type 0 where
  pub idc : String
  pub groups : List RouteGroup

pub record OriginConfig : Type 0 where
  pub host : String
  pub port : ℤ
  pub tls : Bool
  pub dial_timeout : ℤ
  pub connect_timeout : ℤ

pub record HttpConfig : Type 0 where
  pub add_request_headers : Dict String String
  pub remove_request_headers : List String
  pub rewrite_host : Bool
  pub rewrite_host_value : String

pub record ServiceConfig : Type 0 where
  pub id : String
  pub port : ℤ
  pub protocol : String
  pub target_idc : String
  pub groups : List RouteGroup
  pub routes : List IdcRoute
  pub origin : OriginConfig
  pub http : HttpConfig

pub record TunnelConfig : Type 0 where
  pub listen_addr : String
  pub path : String
  pub read_timeout : ℤ
  pub write_timeout : ℤ
  pub max_frame_size : ℤ
  pub psk : String

pub record AccessConfig : Type 0 where
  pub max_frame_size : ℤ
  pub services : List ServiceConfig

pub record RelayConfig : Type 0 where
  pub tunnel : TunnelConfig
  pub services : List ServiceConfig

pub record EgressConfig : Type 0 where
  pub tunnel : TunnelConfig
  pub services : List ServiceConfig

pub record Config : Type 0 where
  pub node_id : String
  pub node_idc : String
  pub access : Option AccessConfig
  pub relay : Option RelayConfig
  pub egress : Option EgressConfig

-- The test of the insertion sort: a group moves before one of lower priority.
unfoldable pub higher : RouteGroup → RouteGroup → Bool
higher a b = ltz b.priority a.priority

-- The groups in the order that `SortGroups` brings them in.
unfoldable pub sorted_groups : List RouteGroup → List RouteGroup
sorted_groups gs = sort higher gs

-- The concatenation of what is in the groups.
unfoldable pub all_hops : List RouteGroup → List HopAddr
all_hops [] = []
all_hops (g ∷ gs) = g.hops ++ all_hops gs

unfoldable pub sort_groups : List RouteGroup → List HopAddr
sort_groups gs = all_hops (sorted_groups gs)

unfoldable pub hops_for_idc : List IdcRoute → String → List HopAddr
unfolding sort_groups sorted_groups all_hops
hops_for_idc [] idc = []
hops_for_idc (r ∷ rs) idc = if r.idc == idc then sort_groups r.groups else hops_for_idc rs idc
