-- ===== src/Proxy.antt =====
-- internal/proxy/caddy.go: the routes of the demos in a Caddy server, over its administration API.
-- The server is a parameter: what it keeps of a configuration, and what it answers to a request.
pub mod Client
pub mod RoundTrip
pub mod Once
pub mod Registry
use try_it_now.Base.{
  ℕ, String, Bool, true, false, Option, none, some, List, [], ◌∷◌, ◌++◌, ◌&&◌, ◌==◌, str_eq, length,
  not, if◌then◌else◌,
}
use try_it_now.Base.Text.{◌<>◌, has_char, replace_char, trim_prefix, trim_suffix, trim_space}
use try_it_now.Domain.{Error, failure, route_not_found}
use try_it_now.World.{Route, Result, ok, err}

-- caddyHandler, with its subroutes and the addresses of its upstreams; a subroute is its handlers.
mutual
  pub data CaddyHandler : Type 0 where
    handler : String → CaddySubroutes → List String → CaddyHandler

  pub data CaddyHandlers : Type 0 where
    no_handlers : CaddyHandlers
    and_handler : CaddyHandler → CaddyHandlers → CaddyHandlers

  pub data CaddySubroutes : Type 0 where
    no_subroutes : CaddySubroutes
    and_subroute : CaddyHandlers → CaddySubroutes → CaddySubroutes

-- caddyRoute; a match is the hosts that it lists.
pub record CaddyRoute : Type 0 where
  pub id : String
  pub matches : List (List String)
  pub handle : CaddyHandlers
  pub terminal : Bool

-- caddyServer
pub record CaddyServer : Type 0 where
  pub listen : List String
  pub server_routes : List CaddyRoute

pub data Method : Type 0 where
  get post put delete : Method

pub data Payload : Type 0 where
  no_payload : Payload
  route_payload : CaddyRoute → Payload
  server_payload : CaddyServer → Payload

pub record Request : Type 0 where
  pub method : Method
  pub url : String
  pub payload : Payload

-- The body of a response, as the code reads it: its text, or what it decodes to.
pub data Body : Type 0 where
  text_body : String → Body
  route_body : CaddyRoute → Body
  routes_body : List CaddyRoute → Body

pub data Answer : Type 0 where
  no_answer : Answer
  answered : ℕ → Body → Answer

-- What the server keeps of the demo server: whether it is there, and its routes.
pub record CaddyConfig : Type 0 where
  pub has_server : Bool
  pub routes : List CaddyRoute

-- The n-th request.
pub record Caddy : Type 0 where
  pub exchange : ℕ → Request → CaddyConfig → Answer × CaddyConfig

-- CaddyRouteManager, and what it acts on. `once` is what the one run of createServerIfNotExists came
-- to: nothing before it has run.
pub record Proxy : Type 0 where
  pub config : CaddyConfig
  pub once : Option (Result (Unit {0}))
  pub sent : List Request

-- cfg.CaddyAdminURL and cfg.BaseDomain
pub record Config : Type 0 where
  pub admin_url : String
  pub base_domain : String

unfoldable pub send : Caddy → Request → Proxy → Answer × Proxy
send c r p =
    let (answer, config) = c.exchange (length p.sent) r p.config in
    (answer, record p { config = config; sent = p.sent ++ r ∷ [] })

abbrev pub server_url : Config → String
server_url cfg = cfg.admin_url <> "/config/apps/http/servers/demo"

abbrev pub routes_url : Config → String
routes_url cfg = cfg.admin_url <> "/config/apps/http/servers/demo/routes"

unfoldable pub route_id : String → String
route_id hostname = "demo-route-" <> replace_char b'.' "-" hostname

abbrev pub id_url : Config → String → String
id_url cfg hostname = cfg.admin_url <> ("/id/" <> route_id hostname)

-- `strings.Contains(fullHostname, ".")`
abbrev pub full_hostname : Config → String → String
full_hostname cfg hostname =
    if has_char b'.' hostname then hostname else hostname <> ("." <> cfg.base_domain)

abbrev pub upstream_address : String → String
upstream_address url = trim_prefix "https://" (trim_prefix "http://" url)

abbrev pub one_handler : CaddyHandler → CaddyHandlers
one_handler h = and_handler h no_handlers

unfoldable pub build_caddy_route : Config → Route → CaddyRoute
unfolding route_id
build_caddy_route cfg r = record {
  id = route_id r.hostname;
  matches = (full_hostname cfg r.hostname ∷ []) ∷ [];
  handle = one_handler (
      handler "subroute"
        (and_subroute
          (one_handler
            (handler "reverse_proxy" no_subroutes (upstream_address r.upstream_url ∷ [])))
          no_subroutes)
        []);
  terminal = true;
}

-- The first reverse proxy with an upstream.
abbrev pub proxied : CaddyHandlers → String
proxied no_handlers = ""
proxied (and_handler (handler name routes []) rest) = proxied rest
proxied (and_handler (handler name routes (dial ∷ others)) rest) =
    let later = proxied rest in if str_eq name "reverse_proxy" then "http://" <> dial else later

abbrev pub upstream_of : CaddyHandler → String
upstream_of (handler name no_subroutes upstreams) = ""
upstream_of (handler name (and_subroute handlers others) upstreams) =
    if str_eq name "subroute" then proxied handlers else ""

abbrev pub route_from : Config → String → String → CaddyHandlers → Option Route
route_from cfg id host no_handlers = none
route_from cfg id host (and_handler first others) = some (record {
  hostname = trim_suffix ("." <> cfg.base_domain) host;
  upstream_url = upstream_of first;
  instance_id = if str_eq id "" then "" else trim_prefix "demo-route-" id;
})

abbrev pub first_host : List (List String) → Option String
first_host [] = none
first_host ([] ∷ others) = none
first_host ((host ∷ hosts) ∷ others) = some host

unfoldable pub caddy_route_to_route : Config → CaddyRoute → Option Route
caddy_route_to_route cfg r = elim (first_host r.matches) [
  | none ↦ none
  | some host ↦ route_from cfg r.id host r.handle
]
