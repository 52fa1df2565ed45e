-- ===== src/Node/Relay/Hops.antt =====
-- How far a tunnel can be relayed.
use accel_proxy.Common.{
  List, Option-cases, ap, arith, bool_eq, false, inl, inr, nat_eq, pair_eq, refl, string_eq, sym, ℕ,
  ◌+◌, ◌∙◌, ◌≡◌, ◌≤◌, ◌⊎◌,
}
use accel_proxy.Common.Int.{int_eq, ltz, pos, ◌+ℤ◌}
use accel_proxy.Common.Dict.{lookup}
use accel_proxy.Config.{HopAddr}
use accel_proxy.Tunnel.Handshake.{HandshakeRequest}
use accel_proxy.Node.Relay.{RouteTable, dials, forward, route}

-- A request goes from relay to relay, each with any routes of its own: the request that the first one
-- gets, the number of relays that pass it on, and the request at the end.
pub data Relayed (first : HandshakeRequest) : ℕ → HandshakeRequest → Type 0 where
  arrives : Relayed first 0 first
  relayed :
      {n : ℕ} {req next : HandshakeRequest} (routes : RouteTable) (hops : List HopAddr)
      → Relayed first n req
      → route routes req ≡ dials hops next
      → Relayed first (n + 1) next

-- What a relay passes on is the request with one hop more, and only to configured next hops.
pub route_lem :
    (routes : RouteTable) (req next : HandshakeRequest) (hops : List HopAddr)
    → route routes req ≡ dials hops next
    → (next ≡ forward req) × (ltz (pos 16) next.hop_count ≡ false)
unfolding route
route_lem routes req next hops e = elim (Option-cases (lookup req.service_id routes)) [
  | inl o ↦ absurd (ground (arith, e, o))
  | inr (rs, o) ↦ ground (arith, e, o)
]

one_more : (n : ℕ) → pos n +ℤ pos 1 ≡ pos (n + 1)
one_more n = ground arith

in_range : (n : ℕ) → ltz (pos 16) (pos n) ≡ false → n ≤ 16
in_range n h = ground arith

-- No request is relayed for ever, whatever the routes of the relays say, loops among them: one that
-- has come with `h` hops behind it is passed on at most 16 - h times; it reaches its end with the
-- number of relays added to its hops, and with its service, target, protocol and client as they were.
pub relayed_lem :
    (first req : HandshakeRequest) (h n : ℕ)
    → first.hop_count ≡ pos h
    → Relayed first n req
    → ((n ≡ 0) ⊎ (h + n ≤ 16))
      × (req.hop_count ≡ pos (h + n))
      × (req.service_id ≡ first.service_id)
      × (req.target_idc ≡ first.target_idc)
      × (req.protocol ≡ first.protocol)
      × (req.client_ip ≡ first.client_ip)
unfolding forward
relayed_lem first _ h _ e arrives = (inl refl, e ∙ ap pos (omega arith), refl, refl, refl, refl)
relayed_lem first _ h _ e (relayed {n = n} {req = req} {next = next} routes hops r s) =
    let (b, c, x, y, z, w) = relayed_lem first req h n e r in
    let (f, l) = route_lem routes req next hops s in
    let hop : next.hop_count ≡ pos (h + (n + 1)) =
      ap (λ t. t.hop_count) f ∙ ap (λ t. t +ℤ pos 1) c ∙ one_more (h + n) ∙ ap pos (omega arith) in
    (
      inr (in_range (h + (n + 1)) (ap (ltz (pos 16)) (sym hop) ∙ l)),
      hop,
      ap (λ t. t.service_id) f ∙ x,
      ap (λ t. t.target_idc) f ∙ y,
      ap (λ t. t.protocol) f ∙ z,
      ap (λ t. t.client_ip) f ∙ w,
    )
