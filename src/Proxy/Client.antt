-- ===== src/Proxy/Client.antt =====
-- internal/proxy/caddy.go: AddRoute, RemoveRoute, GetRoute, ListRoutes, Health and the creation of the
-- demo server. Metrics are left out; a request that cannot be built counts as one without an answer.
use try_it_now.Base.{
  String, Bool, true, Option, none, some, List, [], ◌∷◌, ◌&&◌, ◌||◌, not, ◌==◌, str_eq,
  if◌then◌else◌,
}
use try_it_now.Base.Text.{◌<>◌, trim_space}
use try_it_now.Domain.{failure, route_not_found}
use try_it_now.World.{Route, Result, ok, err}
use try_it_now.Proxy.{
  get, post, put, delete, no_payload, route_payload, server_payload, Body, text_body, route_body,
  routes_body, Answer, no_answer, answered, Caddy, CaddyRoute, CaddyServer, Proxy, Config, send,
  server_url, routes_url, id_url, build_caddy_route, caddy_route_to_route,
}

-- A request that is over when it is answered 200.
abbrev pub done : Answer → Result (Unit {0})
done no_answer = err failure
done (answered status body) = if status == 200 then ok tt else err failure

-- The body is there: neither empty nor "null", spaces aside.
abbrev pub is_present : Body → Bool
is_present (text_body s) = not (str_eq (trim_space s) "null") && not (str_eq (trim_space s) "")
is_present (route_body r) = true
is_present (routes_body rs) = true

unfoldable pub put_server : Caddy → Config → Proxy → Result (Unit {0}) × Proxy
unfolding send
put_server c cfg p =
    let server : CaddyServer = record { listen = ":8443" ∷ []; server_routes = [] } in
    let (answer, p') =
      send c (record { method = put; url = server_url cfg; payload = server_payload server }) p in
    (done answer, p')

abbrev pub server_checked : Caddy → Config → Answer × Proxy → Result (Unit {0}) × Proxy
server_checked c cfg (no_answer, p) = (err failure, p)
server_checked c cfg (answered status body, p) =
    let created = put_server c cfg p in
    if status == 200 && is_present body then (ok tt, p) else created

unfoldable pub create_server_if_not_exists : Caddy → Config → Proxy → Result (Unit {0}) × Proxy
unfolding send put_server
create_server_if_not_exists c cfg p =
    server_checked c cfg
      (send c (record { method = get; url = server_url cfg; payload = no_payload }) p)

-- `serverOnce.Do`: the first run's result is kept for good.
unfoldable pub ensure_server_exists : Caddy → Config → Proxy → Result (Unit {0}) × Proxy
unfolding create_server_if_not_exists
ensure_server_exists c cfg p =
    let (first, p') = create_server_if_not_exists c cfg p in
    elim p.once [ none ↦ (first, record p' { once = some first }) | some kept ↦ (kept, p) ]

-- AddRoute, once the server has been seen to.
abbrev pub post_route :
    Caddy → Config → Route → Result (Unit {0}) × Proxy → Result (Unit {0}) × Proxy
post_route c cfg r (err e, p) = (err e, p)
post_route c cfg r (ok _, p) =
    let (answer, p') =
      send c
        (record {
          method = post;
          url = routes_url cfg;
          payload = route_payload (build_caddy_route cfg r);
        })
        p in
    (done answer, p')

unfoldable pub add_route : Caddy → Config → Route → Proxy → Result (Unit {0}) × Proxy
unfolding ensure_server_exists build_caddy_route
add_route c cfg r p = post_route c cfg r (ensure_server_exists c cfg p)

-- 404 is as good as 200: the route is gone already.
abbrev pub removed : Answer → Result (Unit {0})
removed no_answer = err failure
removed (answered status body) = if status == 200 || status == 404 then ok tt else err failure

unfoldable pub remove_route : Caddy → Config → String → Proxy → Result (Unit {0}) × Proxy
unfolding send
remove_route c cfg hostname p =
    let (answer, p') =
      send c (record { method = delete; url = id_url cfg hostname; payload = no_payload }) p in
    (removed answer, p')

-- The body is decoded into a route; a text is none.
abbrev pub decode_route : Config → Body → Result (Option Route)
decode_route cfg (text_body s) = err failure
decode_route cfg (routes_body rs) = err failure
decode_route cfg (route_body r) = ok (caddy_route_to_route cfg r)

-- A pointer to a route, which may be nil without an error.
abbrev pub got : Config → Answer → Result (Option Route)
got cfg no_answer = err failure
got cfg (answered status body) =
    if status == 404
    then err route_not_found
    else if status == 200
    then decode_route cfg body
    else err failure

unfoldable pub get_route : Caddy → Config → String → Proxy → Result (Option Route) × Proxy
unfolding send caddy_route_to_route
get_route c cfg hostname p =
    let (answer, p') =
      send c (record { method = get; url = id_url cfg hostname; payload = no_payload }) p in
    (got cfg answer, p')

-- Those that convert, in order.
unfoldable pub converted : Config → List CaddyRoute → List Route
unfolding caddy_route_to_route
converted cfg [] = []
converted cfg (r ∷ rs) =
    let rest = converted cfg rs in
    elim (caddy_route_to_route cfg r) [ none ↦ rest | some route ↦ route ∷ rest ]

abbrev pub decode_routes : Config → Body → Result (List Route)
decode_routes cfg (text_body s) = err failure
decode_routes cfg (route_body r) = err failure
decode_routes cfg (routes_body rs) = ok (converted cfg rs)

abbrev pub listed : Config → Answer → Result (List Route)
listed cfg no_answer = err failure
listed cfg (answered status body) =
    if status == 404 then ok [] else if status == 200 then decode_routes cfg body else err failure

unfoldable pub list_routes : Caddy → Config → Proxy → Result (List Route) × Proxy
unfolding send converted
list_routes c cfg p =
    let (answer, p') =
      send c (record { method = get; url = routes_url cfg; payload = no_payload }) p in
    (listed cfg answer, p')

unfoldable pub health : Caddy → Config → Proxy → Result (Unit {0}) × Proxy
unfolding send
health c cfg p =
    let url = cfg.admin_url <> "/config/" in
    let (answer, p') = send c (record { method = get; url = url; payload = no_payload }) p in
    (done answer, p')
