-- ===== src/Proxy/Once.antt =====
-- What later calls of AddRoute meet after the first one, which alone sees to the demo server (caddy.go).
use try_it_now.Base.{◌≡◌, refl, none, some, List, [], ◌∷◌, arith}
use try_it_now.Domain.{Error}
use try_it_now.World.{Route, Result, err}
use try_it_now.Proxy.{Caddy, Proxy, Config}
use try_it_now.Proxy.Client.{add_route, create_server_if_not_exists}

-- AddRoute for each of the routes, in order, with what each came to.
unfoldable pub add_routes : Caddy → Config → List Route → Proxy → List (Result (Unit {0})) × Proxy
add_routes c cfg [] p = ([], p)
add_routes c cfg (r ∷ rs) p =
    let (first, p₁) = add_route c cfg r p in
    let (others, p₂) = add_routes c cfg rs p₁ in (first ∷ others, p₂)

abbrev pub repeated : {A B : Type 0} → B → List A → List B
repeated b [] = []
repeated b (a ∷ as') = b ∷ repeated b as'

add_route_kept :
    (c : Caddy) (cfg : Config) (r : Route) (p : Proxy) (e : Error)
    → p.once ≡ some (err e)
    → add_route c cfg r p ≡ (err e, p)
unfolding add_route
add_route_kept c cfg r p e h = rw (h, add_route) refl

add_routes_kept :
    (c : Caddy) (cfg : Config) (rs : List Route) (p : Proxy) (e : Error)
    → p.once ≡ some (err e)
    → add_routes c cfg rs p ≡ (repeated (err e) rs, p)
unfolding add_routes
add_routes_kept c cfg [] p e h = refl
add_routes_kept c cfg (r ∷ rs) p e h =
    rw (add_route_kept c cfg r p e h, add_routes_kept c cfg rs p e h, add_routes) refl

first_failed :
    (c : Caddy) (cfg : Config) (r : Route) (p : Proxy) (e : Error)
    → p.once ≡ none
    → (create_server_if_not_exists c cfg p).0 ≡ err e
    → ((add_route c cfg r p).0 ≡ err e) × ((add_route c cfg r p).1.once ≡ some (err e))
unfolding add_route
first_failed c cfg r p e h f = ground (arith, h, f)

-- Where the first AddRoute could not make sure of the server, be it for a moment only, every later
-- one fails with the same error, whatever the server would answer by then, and nothing is sent to it.
pub add_routes_poisoned :
    (c : Caddy) (cfg : Config) (r : Route) (later : List Route) (p : Proxy) (e : Error)
    → p.once ≡ none
    → (create_server_if_not_exists c cfg p).0 ≡ err e
    → add_routes c cfg later (add_route c cfg r p).1
      ≡ (repeated (err e) later, (add_route c cfg r p).1)
add_routes_poisoned c cfg r later p e h f =
    add_routes_kept c cfg later (add_route c cfg r p).1 e (first_failed c cfg r p e h f).1
