-- ===== src/MuxHttp/Nodes.antt =====
-- internal/mux_http/server/registry.go: `NodeRegistry`, the session of each edge node. A session
-- is a reference; `replaced` are the sessions that `Register` has closed, the last one first.
use accel_proxy.Common.{
  Bool, List, Option, String, [], arith, bool_eq, false, if◌then◌else◌, map, nat_beq, nat_eq, none,
  pair_eq, some, string_eq, ℕ, ◌++◌, ◌∷◌, ◌≡◌, ◌≢◌,
}
use accel_proxy.Common.Dict.{Dict, delete, insert, lookup, lookup-insert_self}

pub record NodeRegistry : Type 0 where
  pub nodes : Dict String ℕ
  pub replaced : List ℕ

pub new_node_registry : NodeRegistry
new_node_registry = record { nodes = []; replaced = [] }

-- The session that a registration closes: the node's, if it is another.
pub closed_by : Option ℕ → ℕ → List ℕ
closed_by none sess = []
closed_by (some old) sess = if nat_beq old sess then [] else old ∷ []

pub register : NodeRegistry → String → ℕ → NodeRegistry
unfolding closed_by
register r node_id sess = record {
  nodes = insert node_id sess r.nodes;
  replaced = closed_by (lookup node_id r.nodes) sess ++ r.replaced;
}

pub is_session : Option ℕ → ℕ → Bool
is_session none sess = false
is_session (some current) sess = nat_beq current sess

pub unregister : NodeRegistry → String → ℕ → NodeRegistry
unfolding is_session
unregister r node_id sess =
    if is_session (lookup node_id r.nodes) sess
    then record r { nodes = delete node_id r.nodes }
    else r

unfoldable pub session_of : NodeRegistry → String → Option ℕ
session_of r node_id = lookup node_id r.nodes

-- `All`
pub all_sessions : NodeRegistry → List ℕ
all_sessions r = map (λ x. x.1) r.nodes

-- When a node reconnects, its former session is closed, and the end of that session, which
-- unregisters itself then, does not take the new one out of the registry.
pub register_lem :
    (r : NodeRegistry) (node_id : String) (old new : ℕ)
    → session_of r node_id ≡ some old
    → old ≢ new
    → ((register r node_id new).replaced ≡ old ∷ r.replaced)
      × (session_of (unregister (register r node_id new) node_id old) node_id ≡ some new)
unfolding register unregister session_of closed_by is_session
register_lem r node_id old new e n = ground (arith, e, lookup-insert_self node_id new r.nodes)
