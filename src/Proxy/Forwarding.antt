-- ===== src/Proxy/Forwarding.antt =====
-- Which headers of a request leave an access node.
use accel_proxy.Proxy.{
  Header, Http, connection_has_close, del, del_all, hop_by_hop_headers, is_web_socket_upgrade,
  mutate_headers, strip,
}
use accel_proxy.Common.{
  All, Bool-cases, List, String, [], ap, arith, beq_cases, bool_eq, false, inl, inr, nat_eq, none,
  pair_eq, string_eq, subst, sym, ◌∙◌, ◌∷◌, ◌≡◌,
}
use accel_proxy.Common.Dict.{delete, lookup, lookup-delete_ne, lookup-delete_self}
use accel_proxy.Config.{ServiceConfig}

lookup-delete-none :
    (k name : String) (h : Header) → lookup k h ≡ none → lookup k (delete name h) ≡ none
lookup-delete-none k name h e = elim (beq_cases name k) [
  | inl (t, p) ↦ subst (λ x. lookup x (delete name h) ≡ none) p (lookup-delete_self name h)
  | inr n ↦ lookup-delete_ne name k h n ∙ e
]

lookup-del_all-none :
    (t : Http) (k : String) (names : List String) (h : Header)
    → lookup k h ≡ none
    → lookup k (del_all t h names) ≡ none
unfolding del_all del
lookup-del_all-none t k [] h e = e
lookup-del_all-none t k (name ∷ more) h e =
    lookup-del_all-none t k more (del t h name) (lookup-delete-none k (t.canonical name) h e)

lookup-del_all :
    (t : Http) (names : List String) (h : Header)
    → All (λ name. lookup (t.canonical name) (del_all t h names) ≡ none) names
unfolding del_all del
lookup-del_all t [] h = tt
lookup-del_all t (name ∷ more) h = (
  lookup-del_all-none t (t.canonical name) more (del t h name)
      (lookup-delete_self (t.canonical name) h),
  lookup-del_all t more (del t h name),
)

strip-plain :
    (t : Http) (h : Header)
    → is_web_socket_upgrade t (strip t h) ≡ false
    → strip t h ≡ del_all t h hop_by_hop_headers
unfolding strip
strip-plain t h plain = elim (Bool-cases (is_web_socket_upgrade t h)) [
  | inl u ↦ ground (arith, u, plain)
  | inr u ↦ ground (arith, u)
]

-- A request that leaves as something else than a WebSocket upgrade has none of the hop-by-hop headers
-- that the code lists, whatever headers it came with and whatever headers the service adds; and where
-- "Connection" is its own canonical form, as in net/http, `handleHTTP` finds no "close" in it, whatever
-- the client asked for.
pub mutate_headers_lem :
    (t : Http) (svc : ServiceConfig) (h : Header) (client_ip : String)
    → t.canonical "Connection" ≡ "Connection"
    → is_web_socket_upgrade t (mutate_headers t svc h client_ip) ≡ false
    → All
        (λ name. lookup (t.canonical name) (mutate_headers t svc h client_ip) ≡ none)
        ("Connection" ∷ "Keep-Alive" ∷ "Proxy-Authenticate" ∷ "Proxy-Authorization" ∷ "TE"
          ∷ "Trailers" ∷ [])
      × (connection_has_close t (mutate_headers t svc h client_ip) ≡ false)
unfolding mutate_headers connection_has_close
mutate_headers_lem t svc h client_ip canonical plain =
    let all =
      subst (λ (r : Header). All (λ name. lookup (t.canonical name) r ≡ none) hop_by_hop_headers)
        (sym (strip-plain t _ plain)) (lookup-del_all t hop_by_hop_headers _) in
    let gone = ap (λ k. lookup k (mutate_headers t svc h client_ip)) (sym canonical) ∙ all.0 in
    (all, ground (arith, gone))
