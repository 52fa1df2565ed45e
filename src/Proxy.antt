-- ===== src/Proxy.antt =====
-- internal/proxy/l7.go: what an access node makes of the head of an HTTP request, and whether a
-- connection stays open after it. `Http` are the functions of net/http and strings that it calls:
-- the canonical form of a header's name, strings.EqualFold, whether the lower case of a value
-- contains "upgrade", and the trimmed tokens of a value between its commas.
pub mod Forwarding
mod Examples
use accel_proxy.Common.{
  Bool, List, String, [], bool_eq, false, if◌then◌else◌, nat_eq, none, not, pair_eq, some,
  string_eq, text_append, ◌&&◌, ◌==◌, ◌||◌, ◌∷◌,
}
use accel_proxy.Common.Dict.{Dict, delete, insert, lookup}
use accel_proxy.Config.{ServiceConfig}

pub record Http : Type 0 where
  pub canonical : String → String
  pub equal_fold : String → String → Bool
  pub contains_upgrade : String → Bool
  pub tokens : String → List String

abbrev pub Header : Type 0
Header = Dict String (List String)

pub record Request : Type 0 where
  pub header : Header
  pub host : String
  pub url_host : String
  pub url_scheme : String

-- header.Get, header.Set and header.Del
unfoldable pub get : Http → Header → String → String
get t h name = elim (lookup (t.canonical name) h) [ none ↦ "" | some [] ↦ "" | some (v ∷ more) ↦ v ]

unfoldable pub set : Http → Header → String → String → Header
set t h name v = insert (t.canonical name) (v ∷ []) h

unfoldable pub del : Http → Header → String → Header
del t h name = delete (t.canonical name) h

unfoldable pub del_all : Http → Header → List String → Header
del_all t h [] = h
del_all t h (name ∷ more) = del_all t (del t h name) more

unfoldable pub set_all : Http → Header → Dict String String → Header
set_all t h [] = h
set_all t h ((k, v) ∷ more) = set_all t (set t h k v) more

abbrev pub hop_by_hop_headers : List String
hop_by_hop_headers =
    "Connection" ∷ "Keep-Alive" ∷ "Proxy-Authenticate" ∷ "Proxy-Authorization" ∷ "TE" ∷ "Trailers"
    ∷ []

unfoldable pub is_web_socket_upgrade : Http → Header → Bool
is_web_socket_upgrade t h =
    t.equal_fold (get t h "Upgrade") "websocket" && t.contains_upgrade (get t h "Connection")

unfoldable pub forwarded_for : Http → Header → String → String
forwarded_for t h client_ip =
    let prior = get t h "X-Forwarded-For" in
    if prior == "" then client_ip else text_append prior (text_append ", " client_ip)

unfoldable pub strip : Http → Header → Header
strip t h = if is_web_socket_upgrade t h then h else del_all t h hop_by_hop_headers

unfoldable pub mutate_headers : Http → ServiceConfig → Header → String → Header
mutate_headers t svc h client_ip =
    let h1 = set t h "X-Forwarded-For" (forwarded_for t h client_ip) in
    let h2 = set t (set t h1 "X-Real-IP" client_ip) "Via" "1.1 accel-proxy" in
    let h3 = set t h2 "X-Forwarded-Proto" (if svc.origin.tls then "https" else "http") in
    strip t (set_all t (del_all t h3 svc.http.remove_request_headers) svc.http.add_request_headers)

pub mutate_request : Http → ServiceConfig → Request → String → Request
mutate_request t svc req client_ip =
    let host : String =
      if svc.http.rewrite_host && not (svc.http.rewrite_host_value == "")
      then svc.http.rewrite_host_value
      else req.host in
    record {
      header = mutate_headers t svc req.header client_ip;
      host = host;
      url_host = (if req.url_host == "" then host else req.url_host);
      url_scheme =
          (if not (req.url_scheme == "")
            then req.url_scheme
            else if svc.origin.tls
            then "https"
            else "http");
    }

any_close : Http → List String → Bool
any_close t [] = false
any_close t (token ∷ more) = t.equal_fold token "close" || any_close t more

values_close : Http → List String → Bool
values_close t [] = false
values_close t (v ∷ more) = any_close t (t.tokens v) || values_close t more

pub connection_has_close : Http → Header → Bool
connection_has_close t h = elim (lookup "Connection" h) [
  | none ↦ false
  | some vs ↦ values_close t vs
]

-- The end of `handleHTTP`: whether the connection takes another request.
pub keeps_alive : Http → Header → Header → Bool → Bool
keeps_alive t request response at_least_1_1 =
    if connection_has_close t request || connection_has_close t response
    then false
    else at_least_1_1
