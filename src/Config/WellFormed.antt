-- ===== src/Config/WellFormed.antt =====
-- What a well-formed configuration is, and that the checks of hops, groups and routes decide it.
use accel_proxy.Common.{
  All, Bool, List, Option, String, [], arith, beq_cases, bool_eq, false, if◌then◌else◌, inl, inr,
  nat_eq, none, not, pair_eq, refl, some, string_eq, sym, true, ◌&&◌, ◌==◌, ◌↔◌, ◌∙◌, ◌∷◌, ◌≡◌, ◌≢◌,
  ◌⊎◌,
}
use accel_proxy.Common.Int.{int_eq, is_zero, ltz, negsuc, pos, ℤ}
use accel_proxy.Config.{
  AccessConfig, Config, EgressConfig, HopAddr, IdcRoute, RelayConfig, RouteGroup, ServiceConfig,
}
use accel_proxy.Config.Validate.{
  ConfigError, first_error, host_set, is_empty, max_allowed_frame_size, no_addr, no_port, no_sni,
  no_type, reject_if, unknown_type, validate_group, validate_hop, validate_route,
}

-- Given: not the empty string, not the number 0, not the empty list.
abbrev pub IsGiven : String → Type 0
IsGiven s = s ≢ ""

abbrev pub IsPort : ℤ → Type 0
IsPort p = p ≢ pos 0

abbrev pub NonEmpty {ℓ} : {A : Type ℓ} → List A → Type ℓ
NonEmpty xs = xs ≢ []

pub record IsHop (h : HopAddr) : Type 0 where
  pub addr_given : IsGiven h.addr
  pub port_given : IsPort h.port
  -- the name that TLS is verified against is there, and only one place gives it
  pub name_given :
      ((h.type ≡ "ip") × (h.tls ≡ true → IsGiven h.host)) ⊎ ((h.type ≡ "domain") × (h.host ≡ ""))

pub IsGroup : RouteGroup → Type 0
IsGroup g = NonEmpty g.hops × All IsHop g.hops

pub record IsAccessService (svc : ServiceConfig) : Type 0 where
  pub port_given : IsPort svc.port
  pub target_given : IsGiven svc.target_idc
  pub groups_given : NonEmpty svc.groups
  pub groups_ok : All IsGroup svc.groups
  pub rewrite_ok : svc.http.rewrite_host ≡ true → IsGiven svc.http.rewrite_host_value

unfoldable pub Distinct : List ServiceConfig → Type 0
Distinct [] = Unit
Distinct (svc ∷ svcs) = All (λ s. s.port ≢ svc.port) svcs × Distinct svcs

pub IsRoute : IdcRoute → Type 0
IsRoute r = IsGiven r.idc × NonEmpty r.groups × All IsGroup r.groups

pub given_lem : (s : String) → ((s == "") ≡ false) ↔ IsGiven s
given_lem s = elim (beq_cases s "") [
  | inl (h, e) ↦ ((λ k. cc), (λ k. absurd (k e)))
  | inr h ↦ ((λ k p. (let t = (string_eq.beq_iff s "").1 p in cc)), (λ k. h))
]

pub port_lem : (p : ℤ) → (is_zero p ≡ false) ↔ IsPort p
port_lem (pos p) = ground arith
port_lem (negsuc p) = ground arith

pub empty_lem {ℓ} : {A : Type ℓ} (xs : List A) → (is_empty xs ≡ false) ↔ NonEmpty xs
empty_lem [] = ((λ k. cc), (λ k. absurd (k refl)))
empty_lem (x ∷ xs) = ((λ k p. cc), (λ k. refl))

pub first_error_lem {ℓ κ} :
    {A : Type ℓ} (f : A → Option ConfigError) (P : A → Type κ)
    → ((a : A) → (f a ≡ none) ↔ P a)
    → (xs : List A) → (first_error f xs ≡ none) ↔ All P xs
unfolding first_error
first_error_lem f P h [] = ((λ e. tt), (λ e. refl))
first_error_lem f P h (x ∷ xs) = ground (arith, h x, first_error_lem f P h xs)

-- The tests of `validateHop`, for any answers of theirs.
hop_tests :
    (t a p i d h s : Bool)
    → (reject_if t no_type (
          reject_if a no_addr (
            reject_if p no_port (
              if i
              then reject_if (s && h) no_sni none
              else if d
              then reject_if (not h) host_set none
              else some unknown_type)))
        ≡ none)
      ↔ ((t ≡ false)
          × (a ≡ false)
          × (p ≡ false)
          × (((i ≡ true) × (s ≡ true → h ≡ false)) ⊎ ((i ≡ false) × (d ≡ true) × (h ≡ true))))
hop_tests t a p i d h s = ground arith

ip-ne-nil : ◌≢◌ {A = String} "ip" ""
ip-ne-nil q = cc

domain-ne-nil : ◌≢◌ {A = String} "domain" ""
domain-ne-nil q = cc

type_given : (t : String) → (t ≡ "ip") ⊎ (t ≡ "domain") → IsGiven t
type_given t (inl e) k = ip-ne-nil (sym e ∙ k)
type_given t (inr e) k = domain-ne-nil (sym e ∙ k)

domain-ne-ip : (t : String) → t ≡ "domain" → (t == "ip") ≡ false
domain-ne-ip t e = rw e

pub validate_hop_lem : (h : HopAddr) → (validate_hop h ≡ none) ↔ IsHop h
unfolding validate_hop
validate_hop_lem h = (
  (λ e.
      (let (t, a, p, n) =
          (hop_tests (h.type == "") (h.addr == "") (is_zero h.port) (h.type == "ip")
              (h.type == "domain") (h.host == "") h.tls).0
            e in
        from t a p n)),
  (λ v. named v.name_given v),
)
  where
    from :
        (h.type == "") ≡ false
        → (h.addr == "") ≡ false
        → is_zero h.port ≡ false
        → (((h.type == "ip") ≡ true) × (h.tls ≡ true → (h.host == "") ≡ false))
          ⊎ (((h.type == "ip") ≡ false) × ((h.type == "domain") ≡ true) × ((h.host == "") ≡ true))
        → IsHop h
    from t a p (inl (i, s)) = record {
      addr_given = (given_lem h.addr).0 a;
      port_given = (port_lem h.port).0 p;
      name_given = inl ((string_eq.beq_iff h.type "ip").0 i, λ q. (given_lem h.host).0 (s q));
    }
    from t a p (inr (i, d, s)) = record {
      addr_given = (given_lem h.addr).0 a;
      port_given = (port_lem h.port).0 p;
      name_given = inr ((string_eq.beq_iff h.type "domain").0 d, (string_eq.beq_iff h.host "").0 s);
    }

    named :
        ((h.type ≡ "ip") × (h.tls ≡ true → IsGiven h.host)) ⊎ ((h.type ≡ "domain") × (h.host ≡ ""))
        → IsHop h
        → validate_hop h ≡ none
    named (inl (i, s)) v =
        (hop_tests (h.type == "") (h.addr == "") (is_zero h.port) (h.type == "ip")
            (h.type == "domain") (h.host == "") h.tls).1
          (
            (given_lem h.type).1 (type_given h.type (inl i)),
            (given_lem h.addr).1 v.addr_given,
            (port_lem h.port).1 v.port_given,
            inl ((string_eq.beq_iff h.type "ip").1 i, λ q. (given_lem h.host).1 (s q)),
          )
    named (inr (d, s)) v =
        (hop_tests (h.type == "") (h.addr == "") (is_zero h.port) (h.type == "ip")
            (h.type == "domain") (h.host == "") h.tls).1
          (
            (given_lem h.type).1 (type_given h.type (inr d)),
            (given_lem h.addr).1 v.addr_given,
            (port_lem h.port).1 v.port_given,
            inr (
              domain-ne-ip h.type d,
              (string_eq.beq_iff h.type "domain").1 d,
              (string_eq.beq_iff h.host "").1 s,
            ),
          )

pub validate_group_lem : (g : RouteGroup) → (validate_group g ≡ none) ↔ IsGroup g
unfolding validate_group IsGroup
validate_group_lem g =
    ground (arith, empty_lem g.hops, first_error_lem validate_hop IsHop validate_hop_lem g.hops)

pub validate_route_lem : (r : IdcRoute) → (validate_route r ≡ none) ↔ IsRoute r
unfolding validate_route IsRoute
validate_route_lem r = ground (
  arith,
  given_lem r.idc,
  empty_lem r.groups,
  first_error_lem validate_group IsGroup validate_group_lem r.groups,
)

-- The sections of a configuration, as they have to be.
abbrev pub FitsFrames : ℤ → Type 0
FitsFrames n = ltz max_allowed_frame_size n ≡ false

unfoldable pub IsAccess : AccessConfig → Type 0
IsAccess a = FitsFrames a.max_frame_size × All IsAccessService a.services × Distinct a.services

unfoldable pub IsRelay : RelayConfig → Type 0
IsRelay r =
    IsGiven r.tunnel.listen_addr
    × FitsFrames r.tunnel.max_frame_size
    × All (λ svc. NonEmpty svc.routes × All IsRoute svc.routes) r.services

unfoldable pub IsEgress : String → EgressConfig → Type 0
IsEgress node_idc e =
    IsGiven e.tunnel.listen_addr
    × IsGiven node_idc
    × FitsFrames e.tunnel.max_frame_size
    × All (λ svc. IsGiven svc.origin.host × IsPort svc.origin.port) e.services

-- A property of a section that is configured.
abbrev pub IfGiven {ℓ} : {A : Type ℓ} → (A → Type 0) → Option A → Type 0
IfGiven P none = Unit
IfGiven P (some a) = P a

unfoldable pub IsConfig : Config → Type 0
IsConfig c =
    IsGiven c.node_id
    × ((c.access ≢ none) ⊎ ((c.relay ≢ none) ⊎ (c.egress ≢ none)))
    × IfGiven IsAccess c.access
    × IfGiven IsRelay c.relay
    × IfGiven (IsEgress c.node_idc) c.egress
