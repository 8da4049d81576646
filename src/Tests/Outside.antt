-- ===== src/Tests/Outside.antt =====
-- A Caddy server that behaves as documented, and the theorems about its client at concrete inputs.
use text.Mathlib.TextLemmas.{nil-append}
use try_it_now.Base.{
  ℕ, ◌≡◌, ◌⊎◌, refl, String, Bool, true, Option, none, some, List, [], ◌∷◌, ◌++◌, arith, str_eq,
  if◌then◌else◌,
}
use try_it_now.Base.Text.{◌<>◌, after_prefix, has_char, trim_space}
use try_it_now.Domain.{ready, failure}
use try_it_now.World.{Route, ok, err}
use try_it_now.Pool.{route_of}
use try_it_now.Proxy.{
  Caddy, CaddyConfig, CaddyRoute, Method, get, post, put, delete, Payload, no_payload,
  route_payload, server_payload, Answer, no_answer, answered, Body, text_body, route_body, Proxy,
  Config, id_url, route_id, build_caddy_route, caddy_route_to_route,
}
use try_it_now.Proxy.Client.{
  add_route, get_route, create_server_if_not_exists, ensure_server_exists,
}
use try_it_now.Proxy.RoundTrip.{after_prefix-append, caddy_route_to_route-build_caddy_route}
use try_it_now.Proxy.Once.{add_routes, repeated, add_routes_poisoned}
use try_it_now.Proxy.Registry.{find_route, IsDocumented, Found, get_route-add_route}
use try_it_now.Tests.Sample.{sample_instance}

abbrev pub sample_config : Config
sample_config = record { admin_url = ""; base_domain = "example.org" }

abbrev identified : String → CaddyRoute → Bool
identified id r = str_eq r.id id

without_route : String → List CaddyRoute → List CaddyRoute
without_route id [] = []
without_route id (r ∷ rs) =
    let rest = without_route id rs in if identified id r then rest else r ∷ rest

abbrev found_answer : Option CaddyRoute → Answer
found_answer none = answered 404 (text_body "")
found_answer (some r) = answered 200 (route_body r)

-- What is asked of the object under an identifier; `none` is another path, where the server is.
abbrev get_at : Option String → CaddyConfig → Answer
get_at none k = answered 200 (text_body "{}")
get_at (some id) k = found_answer (find_route id k.routes)

abbrev delete_at : Option String → CaddyConfig → Answer × CaddyConfig
delete_at none k = (no_answer, k)
delete_at (some id) k =
    (answered 200 (text_body ""), record k { routes = without_route id k.routes })

abbrev store_payload : Payload → CaddyConfig → CaddyConfig
store_payload no_payload k = k
store_payload (server_payload s) k = k
store_payload (route_payload r) k = record k { routes = k.routes ++ r ∷ [] }

abbrev exchanged : Method → Option String → Payload → CaddyConfig → Answer × CaddyConfig
exchanged get id _ k = (get_at id k, k)
exchanged delete id _ k = delete_at id k
exchanged post id sent k = (answered 200 (text_body ""), store_payload sent k)
exchanged put id _ k = (answered 200 (text_body ""), k)

abbrev sample_caddy : Caddy
sample_caddy = record {
  exchange = λ n r k. exchanged r.method (after_prefix "/id/" r.url) r.payload k;
}

id_asked :
    (hostname : String)
    → after_prefix "/id/" (id_url sample_config hostname) ≡ some (route_id hostname)
id_asked hostname =
    rw (nil-append ("/id/" <> route_id hostname)) (after_prefix-append "/id/" (route_id hostname))

found_answer-Found :
    (kept : Option CaddyRoute) (status : ℕ) (body : Body)
    → found_answer kept ≡ answered status body
    → Found kept status body
found_answer-Found none status body h = ground (arith, h)
found_answer-Found (some r) status body h = (ground (arith, h), ground (arith, h))

find_route-without_route :
    (id : String) (rs : List CaddyRoute) → find_route id (without_route id rs) ≡ none
unfolding find_route without_route
find_route-without_route id [] = refl
find_route-without_route id (r ∷ rs) = ground (arith, find_route-without_route id rs)

sample_caddy-IsDocumented : IsDocumented sample_caddy sample_config
sample_caddy-IsDocumented = record {
  get_answers = λ n hostname k status body h.
      found_answer-Found (find_route (route_id hostname) k.routes) status body
        (rw (id_asked hostname) at h);
  post_appends = λ n r k body h. refl;
  delete_removes = λ n hostname k body h.
      rw (id_asked hostname) (find_route-without_route (route_id hostname) k.routes);
  delete_missing = λ n hostname k body h.
      rw (id_asked hostname) (find_route-without_route (route_id hostname) k.routes);
}

-- A proxy that has sent nothing yet, over a server with no routes.
abbrev sample_proxy : Proxy
sample_proxy = record { config = record { has_server = true; routes = [] }; once = none; sent = [] }

abbrev sample_route : Route
sample_route = record {
  hostname = "demo1";
  upstream_url = "http://localhost:3001";
  instance_id = "a";
}

-- A server that cannot be reached.
abbrev unreachable : Caddy
unreachable = record { exchange = λ n r k. (no_answer, k) }

get_route-add_route_example :
    ((get_route sample_caddy sample_config "demo1"
        (add_route sample_caddy sample_config sample_route sample_proxy).1).0
      ≡ err failure)
    ⊎ ((get_route sample_caddy sample_config "demo1"
          (add_route sample_caddy sample_config sample_route sample_proxy).1).0
        ≡ ok (caddy_route_to_route sample_config (build_caddy_route sample_config sample_route)))
unfolding add_route ensure_server_exists create_server_if_not_exists find_route after_prefix
    trim_space
get_route-add_route_example =
    get_route-add_route sample_caddy sample_config sample_route sample_proxy
      sample_caddy-IsDocumented refl refl

add_routes_poisoned_example :
    add_routes unreachable sample_config
      (sample_route ∷ sample_route ∷ [])
      (add_route unreachable sample_config sample_route sample_proxy).1
    ≡ (
      repeated (err failure) (sample_route ∷ sample_route ∷ []),
      (add_route unreachable sample_config sample_route sample_proxy).1,
    )
unfolding create_server_if_not_exists
add_routes_poisoned_example =
    add_routes_poisoned unreachable sample_config sample_route (sample_route ∷ sample_route ∷ [])
      sample_proxy failure refl refl

read_back_example :
    caddy_route_to_route sample_config
      (build_caddy_route sample_config (route_of (sample_instance "a" 3001 ready)))
    ≡ some (record (route_of (sample_instance "a" 3001 ready)) { instance_id = "demo-1" })
unfolding has_char
read_back_example =
    caddy_route_to_route-build_caddy_route sample_config (sample_instance "a" 3001 ready) refl
