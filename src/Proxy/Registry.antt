-- ===== src/Proxy/Registry.antt =====
-- The Caddy server as a registry of routes by their hostnames, where it behaves as documented.
use try_it_now.Base.{
  ℕ, ◌≡◌, ◌⊎◌, refl, String, true, Option, none, some, List, [], ◌∷◌, ◌++◌, arith, str_eq, eq_refl,
  length, if◌then◌else◌, inl, inr,
}
use try_it_now.Domain.{failure, route_not_found}
use try_it_now.World.{Route, Result, ok, err}
use try_it_now.Proxy.{
  get, post, delete, no_payload, route_payload, Request, Body, route_body, Answer, no_answer,
  answered, Caddy, CaddyConfig, CaddyRoute, Proxy, Config, send, routes_url, id_url, route_id,
  build_caddy_route, caddy_route_to_route,
}
use try_it_now.Proxy.Client.{
  done, removed, got, add_route, remove_route, get_route, ensure_server_exists, post_route,
}

-- The first route under an identifier.
unfoldable pub find_route : String → List CaddyRoute → Option CaddyRoute
find_route id [] = none
find_route id (r ∷ rs) = let rest = find_route id rs in if str_eq r.id id then some r else rest

-- What an object under `/id/` answers.
abbrev pub Found : Option CaddyRoute → ℕ → Body → Type 0
Found none status body = status ≡ 404
Found (some r) status body = (status ≡ 200) × (body ≡ route_body r)

abbrev pub get_request : Config → String → Request
get_request cfg hostname = record { method = get; url = id_url cfg hostname; payload = no_payload }

abbrev pub delete_request : Config → String → Request
delete_request cfg hostname = record {
  method = delete;
  url = id_url cfg hostname;
  payload = no_payload;
}

abbrev pub post_request : Config → CaddyRoute → Request
post_request cfg r = record { method = post; url = routes_url cfg; payload = route_payload r }

-- What the code relies on, of an administration API at `cfg`: a read answers with the object under the
-- identifier, or 404, and changes nothing; a route that is accepted is the last of the routes then; a
-- deletion that is accepted leaves no route under the identifier, and 404 says that there is none.
pub record IsDocumented (c : Caddy) (cfg : Config) : Type 0 where
  pub get_answers :
      (n : ℕ) (hostname : String) (k : CaddyConfig) (status : ℕ) (body : Body)
      → (c.exchange n (get_request cfg hostname) k).0 ≡ answered status body
      → Found (find_route (route_id hostname) k.routes) status body
  pub post_appends :
      (n : ℕ) (r : CaddyRoute) (k : CaddyConfig) (body : Body)
      → (c.exchange n (post_request cfg r) k).0 ≡ answered 200 body
      → (c.exchange n (post_request cfg r) k).1.routes ≡ k.routes ++ r ∷ []
  pub delete_removes :
      (n : ℕ) (hostname : String) (k : CaddyConfig) (body : Body)
      → (c.exchange n (delete_request cfg hostname) k).0 ≡ answered 200 body
      → find_route (route_id hostname) (c.exchange n (delete_request cfg hostname) k).1.routes
        ≡ none
  pub delete_missing :
      (n : ℕ) (hostname : String) (k : CaddyConfig) (body : Body)
      → (c.exchange n (delete_request cfg hostname) k).0 ≡ answered 404 body
      → find_route (route_id hostname) (c.exchange n (delete_request cfg hostname) k).1.routes
        ≡ none

pub Answer-cases :
    (a : Answer) → (a ≡ no_answer) ⊎ ((status : ℕ) × (body : Body) × (a ≡ answered status body))
Answer-cases no_answer = inl refl
Answer-cases (answered status body) = inr (status, body, refl)

module _ (c : Caddy) (cfg : Config) (d : IsDocumented c cfg) where
  removed_lem :
      (n : ℕ) (hostname : String) (k : CaddyConfig) (answer : Answer)
      → (c.exchange n (delete_request cfg hostname) k).0 ≡ answer
      → removed answer ≡ ok tt
      → find_route (route_id hostname) (c.exchange n (delete_request cfg hostname) k).1.routes
        ≡ none
  removed_lem n hostname k no_answer e h = ground arith
  removed_lem n hostname k (answered status body) e h =
      ground (arith, d.delete_removes n hostname k body, d.delete_missing n hostname k body)

  got_nothing :
      (n : ℕ) (hostname : String) (k : CaddyConfig) (answer : Answer)
      → (c.exchange n (get_request cfg hostname) k).0 ≡ answer
      → find_route (route_id hostname) k.routes ≡ none
      → (got cfg answer ≡ err failure) ⊎ (got cfg answer ≡ err route_not_found)
  got_nothing n hostname k no_answer e h = inl refl
  got_nothing n hostname k (answered status body) e h =
      inr (ground (arith, d.get_answers n hostname k status body e))

  got_route :
      (n : ℕ) (hostname : String) (r : CaddyRoute) (k : CaddyConfig) (answer : Answer)
      → (c.exchange n (get_request cfg hostname) k).0 ≡ answer
      → find_route (route_id hostname) k.routes ≡ some r
      → (got cfg answer ≡ err failure) ⊎ (got cfg answer ≡ ok (caddy_route_to_route cfg r))
  got_route n hostname r k no_answer e h = inl refl
  got_route n hostname r k (answered status body) e h =
      inr (ground (arith, d.get_answers n hostname k status body e))

-- After a removal that reports success, a lookup of the hostname never finds a route: it reports that
-- there is none, or that it did not get through.
pub get_route-remove_route :
    (c : Caddy) (cfg : Config) (hostname : String) (p : Proxy)
    → IsDocumented c cfg
    → (remove_route c cfg hostname p).0 ≡ ok tt
    → ((get_route c cfg hostname (remove_route c cfg hostname p).1).0 ≡ err failure)
      ⊎ ((get_route c cfg hostname (remove_route c cfg hostname p).1).0 ≡ err route_not_found)
unfolding get_route remove_route
get_route-remove_route c cfg hostname p d h =
    let sent = c.exchange (length p.sent) (delete_request cfg hostname) p.config in
    got_nothing c cfg d _ hostname sent.1 _ refl
      (removed_lem c cfg d (length p.sent) hostname p.config sent.0 refl h)

find_route-append :
    (id : String) (rs : List CaddyRoute) (r : CaddyRoute)
    → find_route id rs ≡ none
    → str_eq r.id id ≡ true
    → find_route id (rs ++ r ∷ []) ≡ some r
unfolding find_route
find_route-append id [] r h e = ground arith
find_route-append id (s ∷ rs) r h e = ground (arith, find_route-append id rs r)

posted :
    (c : Caddy) (cfg : Config) (d : IsDocumented c cfg) (n : ℕ) (r : CaddyRoute) (k : CaddyConfig)
    (answer : Answer)
    → (c.exchange n (post_request cfg r) k).0 ≡ answer
    → done answer ≡ ok tt
    → (c.exchange n (post_request cfg r) k).1.routes ≡ k.routes ++ r ∷ []
posted c cfg d n r k no_answer e h = ground arith
posted c cfg d n r k (answered status body) e h = ground (arith, d.post_appends n r k body)

added_then_got :
    (c : Caddy) (cfg : Config) (r : Route) (seen : Result (Unit {0}) × Proxy)
    → IsDocumented c cfg
    → find_route (route_id r.hostname) seen.1.config.routes ≡ none
    → (post_route c cfg r seen).0 ≡ ok tt
    → ((get_route c cfg r.hostname (post_route c cfg r seen).1).0 ≡ err failure)
      ⊎ ((get_route c cfg r.hostname (post_route c cfg r seen).1).0
          ≡ ok (caddy_route_to_route cfg (build_caddy_route cfg r)))
unfolding get_route send build_caddy_route
added_then_got c cfg r (err e, p) d fresh h = ground arith
added_then_got c cfg r (ok _, p) d fresh h =
    let built = build_caddy_route cfg r in
    let sent = c.exchange (length p.sent) (post_request cfg built) p.config in
    let there : find_route (route_id r.hostname) sent.1.routes ≡ some built =
      rw (posted c cfg d (length p.sent) built p.config sent.0 refl h)
        (find_route-append (route_id r.hostname) p.config.routes built fresh (eq_refl built.id)) in
    got_route c cfg d _ r.hostname built sent.1 _ refl there

-- After a route was added with success where there was none for its hostname, a lookup of the hostname
-- finds what the route reads back as, or reports that it did not get through.
pub get_route-add_route :
    (c : Caddy) (cfg : Config) (r : Route) (p : Proxy)
    → IsDocumented c cfg
    → find_route (route_id r.hostname) (ensure_server_exists c cfg p).1.config.routes ≡ none
    → (add_route c cfg r p).0 ≡ ok tt
    → ((get_route c cfg r.hostname (add_route c cfg r p).1).0 ≡ err failure)
      ⊎ ((get_route c cfg r.hostname (add_route c cfg r p).1).0
          ≡ ok (caddy_route_to_route cfg (build_caddy_route cfg r)))
unfolding add_route
get_route-add_route c cfg r p d fresh h =
    added_then_got c cfg r (ensure_server_exists c cfg p) d fresh h
