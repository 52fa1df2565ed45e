-- ===== src/Config/Accepted.antt =====
-- `Config.validate` accepts a configuration exactly when it is well formed.
use accel_proxy.Common.Dict.{Dict, insert, lookup, lookup-insert_ne, lookup-insert_self}
use accel_proxy.Common.{
  All, All-both, All-map, Bool, List, Option, Option-cases, String, [], ap, arith, beq_cases,
  bool_eq, false, if◌then◌else◌, inl, inr, is_some, nat_eq, none, not, pair_eq, refl, some,
  string_eq, sym, true, ◌&&◌, ◌==◌, ◌↔◌, ◌∙◌, ◌∷◌, ◌≡◌, ◌≢◌, ◌⊎◌,
}
use accel_proxy.Common.Int.{int_eq, is_zero, ℤ}
use accel_proxy.Config.{AccessConfig, Config, EgressConfig, RelayConfig, ServiceConfig}
use accel_proxy.Config.Validate.{
  ConfigError, duplicate_port, first_error, is_empty, no_groups, no_node_id, no_port,
  no_rewrite_value, no_role, no_target_idc, or_else, reject_if, validate, validate_access,
  validate_egress, validate_group, validate_origin, validate_ports, validate_relay,
  validate_relay_service, validate_route, validate_section,
}
use accel_proxy.Config.WellFormed.{
  Distinct, IfGiven, IsAccess, IsAccessService, IsConfig, IsEgress, IsGiven, IsGroup, IsPort,
  IsRelay, IsRoute, NonEmpty, empty_lem, first_error_lem, given_lem, port_lem, validate_group_lem,
  validate_route_lem,
}

lookup-insert-none :
    (p q : ℤ) (m : Dict ℤ Bool)
    → (lookup q (insert p true m) ≡ none) ↔ ((q ≢ p) × (lookup q m ≡ none))
lookup-insert-none p q m = elim (beq_cases p q) [
  | inl (h, e) ↦ (
    (λ k.
        (let t = ap (λ x. lookup x (insert p true m)) e ∙ k in
          let u = lookup-insert_self p true m in cc)),
    (λ k. absurd (k.0 (sym e))),
  )
  | inr h ↦
      (let u = lookup-insert_ne p q true m h in
        ((λ k. ((λ e. (let t = (int_eq.beq_iff p q).1 (sym e) in cc)), sym u ∙ k)), (λ k. u ∙ k.1)))
]

service_tests :
    (z d t g r v : Bool) (e rest : Option ConfigError)
    → (reject_if z no_port (
          reject_if d duplicate_port (
            reject_if t no_target_idc
              (reject_if g no_groups (reject_if (r && v) no_rewrite_value (or_else e rest)))))
        ≡ none)
      ↔ ((z ≡ false)
          × (d ≡ false)
          × (t ≡ false)
          × (g ≡ false)
          × (r ≡ true → v ≡ false)
          × (e ≡ none)
          × (rest ≡ none))
service_tests z d t g r v e rest = ground arith

is_some-false {ℓ} : {A : Type ℓ} (o : Option A) → (is_some o ≡ false) ↔ (o ≡ none)
is_some-false none = ((λ e. refl), (λ e. refl))
is_some-false (some a) = ((λ e. cc), (λ e. cc))

access_tests :
    (svc : ServiceConfig) (ports : Dict ℤ Bool) (rest : Option ConfigError)
    → (reject_if (is_zero svc.port) no_port (
          reject_if (is_some (lookup svc.port ports)) duplicate_port (
            reject_if (svc.target_idc == "") no_target_idc (
              reject_if (is_empty svc.groups) no_groups (
                reject_if
                  (svc.http.rewrite_host && svc.http.rewrite_host_value == "")
                  no_rewrite_value
                  (or_else (first_error validate_group svc.groups) rest)))))
        ≡ none)
      ↔ (IsAccessService svc × (lookup svc.port ports ≡ none) × (rest ≡ none))
access_tests svc ports rest = (
  (λ e.
      (let (z, d, t, g, r, v, q) =
          (service_tests (is_zero svc.port) (is_some (lookup svc.port ports)) (svc.target_idc == "")
              (is_empty svc.groups) svc.http.rewrite_host (svc.http.rewrite_host_value == "")
              (first_error validate_group svc.groups) rest).0
            e in
        (
          record {
            port_given = (port_lem svc.port).0 z;
            target_given = (given_lem svc.target_idc).0 t;
            groups_given = (empty_lem svc.groups).0 g;
            groups_ok = groups.0 v;
            rewrite_ok = λ w. (given_lem svc.http.rewrite_host_value).0 (r w);
          },
          (is_some-false (lookup svc.port ports)).0 d,
          q,
        ))),
  (λ h.
      (let (s, d, q) = h in
        (service_tests (is_zero svc.port) (is_some (lookup svc.port ports)) (svc.target_idc == "")
            (is_empty svc.groups) svc.http.rewrite_host (svc.http.rewrite_host_value == "")
            (first_error validate_group svc.groups) rest).1
          (
            (port_lem svc.port).1 s.port_given,
            (is_some-false (lookup svc.port ports)).1 d,
            (given_lem svc.target_idc).1 s.target_given,
            (empty_lem svc.groups).1 s.groups_given,
            (λ w. (given_lem svc.http.rewrite_host_value).1 (s.rewrite_ok w)),
            groups.1 s.groups_ok,
            q,
          ))),
)
  where
    groups : (first_error validate_group svc.groups ≡ none) ↔ All IsGroup svc.groups
    groups = first_error_lem validate_group IsGroup validate_group_lem svc.groups

validate_ports_lem :
    (ports : Dict ℤ Bool) (svcs : List ServiceConfig)
    → (validate_ports ports svcs ≡ none)
      ↔ (All IsAccessService svcs × Distinct svcs × All (λ s. lookup s.port ports ≡ none) svcs)
unfolding validate_ports Distinct
validate_ports_lem ports [] = ((λ e. (tt, tt, tt)), (λ e. refl))
validate_ports_lem ports (svc ∷ svcs) = (
  (λ e.
      (let (v, n, r) = (access_tests svc ports (validate_ports more svcs)).0 e in
        let (vs, d, l) = (validate_ports_lem more svcs).0 r in
        let (u, k) = both.0 (All-map seen unseen (λ s. (step s).0) svcs l) in
        ((v, vs), (u, d), (n, k)))),
  (λ h.
      (let ((v, vs), (u, d), (n, k)) = h in
        (access_tests svc ports (validate_ports more svcs)).1 (
          v,
          n,
          (validate_ports_lem more svcs).1
              (vs, d, All-map unseen seen (λ s. (step s).1) svcs (both.1 (u, k))),
        ))),
)
  where
    more : Dict ℤ Bool
    more = insert svc.port true ports

    seen : ServiceConfig → Type 0
    seen s = lookup s.port more ≡ none

    unseen : ServiceConfig → Type 0
    unseen s = (s.port ≢ svc.port) × (lookup s.port ports ≡ none)

    both :
        All (λ s. (s.port ≢ svc.port) × (lookup s.port ports ≡ none)) svcs
        ↔ (All (λ s. s.port ≢ svc.port) svcs × All (λ s. lookup s.port ports ≡ none) svcs)
    both = All-both (λ s. s.port ≢ svc.port) (λ s. lookup s.port ports ≡ none) svcs

    step : (s : ServiceConfig) → seen s ↔ unseen s
    step s = lookup-insert-none svc.port s.port ports

no_ports : (svcs : List ServiceConfig) → All (λ s. lookup {V = Bool} s.port [] ≡ none) svcs
unfolding lookup
no_ports [] = tt
no_ports (s ∷ svcs) = (refl, no_ports svcs)

validate_access_lem : (a : AccessConfig) → (validate_access a ≡ none) ↔ IsAccess a
unfolding validate_access IsAccess
validate_access_lem a = ground (arith, validate_ports_lem [] a.services, no_ports a.services)

relay_service :
    (svc : ServiceConfig)
    → (validate_relay_service svc ≡ none) ↔ (NonEmpty svc.routes × All IsRoute svc.routes)
unfolding validate_relay_service
relay_service svc = ground (
  arith,
  empty_lem svc.routes,
  first_error_lem validate_route IsRoute validate_route_lem svc.routes,
)

validate_relay_lem : (r : RelayConfig) → ((validate_relay r).1 ≡ none) ↔ IsRelay r
unfolding validate_relay IsRelay
validate_relay_lem r = ground (
  arith,
  given_lem r.tunnel.listen_addr,
  first_error_lem validate_relay_service (λ svc. NonEmpty svc.routes × All IsRoute svc.routes)
      relay_service r.services,
)

origin :
    (svc : ServiceConfig)
    → (validate_origin svc ≡ none) ↔ (IsGiven svc.origin.host × IsPort svc.origin.port)
unfolding validate_origin
origin svc = ground (arith, given_lem svc.origin.host, port_lem svc.origin.port)

validate_egress_lem :
    (i : String) (e : EgressConfig) → ((validate_egress i e).1 ≡ none) ↔ IsEgress i e
unfolding validate_egress IsEgress
validate_egress_lem i e = ground (
  arith,
  given_lem e.tunnel.listen_addr,
  given_lem i,
  first_error_lem validate_origin (λ svc. IsGiven svc.origin.host × IsPort svc.origin.port) origin
      e.services,
)

section_lem {ℓ} :
    {A : Type ℓ} (f : A → A × Option ConfigError) (P : A → Type 0)
    → ((a : A) → ((f a).1 ≡ none) ↔ P a)
    → (o : Option A) → ((validate_section f o).1 ≡ none) ↔ IfGiven P o
unfolding validate_section
section_lem f P h none = ((λ e. tt), (λ e. refl))
section_lem f P h (some a) = h a

some_role :
    (c : Config)
    → (not (is_some c.access) && not (is_some c.relay) && not (is_some c.egress) ≡ false)
      ↔ ((c.access ≢ none) ⊎ ((c.relay ≢ none) ⊎ (c.egress ≢ none)))
some_role c = ground (arith, Option-cases c.access, Option-cases c.relay, Option-cases c.egress)

validate_tests :
    (n r : Bool) (a l e : Option ConfigError) (c d f : Config)
    → (let out : Config × Option ConfigError =
          if n
          then (c, some no_node_id)
          else if r
          then (c, some no_role)
          else if is_some a
          then (c, a)
          else if is_some l
          then (d, l)
          else (f, e) in
        out.1 ≡ none)
      ↔ ((n ≡ false) × (r ≡ false) × (a ≡ none) × (l ≡ none) × (e ≡ none))
validate_tests n r a l e c d f = ground arith

-- Validation returns no error exactly for the configurations in which the node has a name and a
-- role; every service, route and group that a role uses has what it needs down to its hops, and
-- each hop an address, a port and one unambiguous name for TLS; the ports of the access services
-- are pairwise distinct; an egress node has an IDC; and frame sizes are within the limit.
pub validate_lem : (c : Config) → ((validate c).1 ≡ none) ↔ IsConfig c
unfolding validate IsConfig
validate_lem c =
    let access = section_lem (λ a. (a, validate_access a)) IsAccess validate_access_lem c.access in
    let relay = section_lem validate_relay IsRelay validate_relay_lem c.relay in
    let egress =
      section_lem (validate_egress c.node_idc) (IsEgress c.node_idc)
        (validate_egress_lem c.node_idc) c.egress in
    let tests =
      validate_tests (c.node_id == "")
        (not (is_some c.access) && not (is_some c.relay) && not (is_some c.egress))
        (validate_section (λ a. (a, validate_access a)) c.access).1
        (validate_section validate_relay c.relay).1
        (validate_section (validate_egress c.node_idc) c.egress).1 c
        (record c { relay = (validate_section validate_relay c.relay).0 })
        (record c {
          relay = (validate_section validate_relay c.relay).0;
          egress = (validate_section (validate_egress c.node_idc) c.egress).0;
        }) in
    (
      (λ k.
          (let (n, r, a, l, e) = tests.0 k in
            ((given_lem c.node_id).0 n, (some_role c).0 r, access.0 a, relay.0 l, egress.0 e))),
      (λ k.
          (let (n, r, a, l, e) = k in
            tests.1
              ((given_lem c.node_id).1 n, (some_role c).1 r, access.1 a, relay.1 l, egress.1 e))),
    )
