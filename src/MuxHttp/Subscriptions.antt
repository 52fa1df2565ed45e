-- ===== src/MuxHttp/Subscriptions.antt =====
-- internal/mux_http/server/registry.go: `SubscriptionTable`, the nodes subscribed to each stream.
use accel_proxy.Common.{
  Bool, List, String, [], arith, bool_eq, false, if◌then◌else◌, is_some, length, map, nat_beq,
  nat_eq, none, pair_eq, refl, some, string_eq, ◌∷◌, ◌≡◌,
}
use accel_proxy.Common.Dict.{Dict, delete, insert, lookup, lookup-delete_self}

abbrev pub SubscriptionTable : Type 0
SubscriptionTable = Dict String (Dict String Unit)

pub subscribe : SubscriptionTable → String → String → SubscriptionTable
subscribe t stream_name node_id =
    let nodes : Dict String Unit = elim (lookup stream_name t) [ none ↦ [] | some s ↦ s ] in
    insert stream_name (insert node_id tt nodes) t

-- The loop over the streams; a stream that nobody is subscribed to is deleted.
pub unsubscribe : SubscriptionTable → String → SubscriptionTable
unsubscribe [] node_id = []
unsubscribe ((name, nodes) ∷ more) node_id =
    let left = delete node_id nodes in
    let rest = unsubscribe more node_id in
    if nat_beq (length left) 0 then rest else (name, left) ∷ rest

unfoldable pub subscribers : SubscriptionTable → String → List String
subscribers t stream_name = elim (lookup stream_name t) [ none ↦ [] | some s ↦ map (λ x. x.0) s ]

-- Whether a node is among the subscribers.
pub is_subscribed : SubscriptionTable → String → String → Bool
is_subscribed t stream_name node_id = elim (lookup stream_name t) [
  | none ↦ false
  | some s ↦ is_some (lookup node_id s)
]

-- Whatever it was subscribed to, an unsubscribed node is subscribed to nothing.
pub unsubscribe_lem :
    (t : SubscriptionTable) (stream_name node_id : String)
    → is_subscribed (unsubscribe t node_id) stream_name node_id ≡ false
unfolding unsubscribe is_subscribed lookup
unsubscribe_lem [] stream_name node_id = refl
unsubscribe_lem ((name, nodes) ∷ more) stream_name node_id =
    ground (arith, unsubscribe_lem more stream_name node_id, lookup-delete_self node_id nodes)
