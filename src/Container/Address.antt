-- ===== src/Container/Address.antt =====
-- One address of a demo: what its container is told, what Caddy matches and what the user is given.
use text.Mathlib.TextLemmas.{append_assoc}
use try_it_now.Base.{ℕ, ◌≡◌, refl, String, true, false, [], ◌∷◌, arith, str_eq, eq_refl, contains}
use try_it_now.Base.Text.{◌<>◌, has_char, decimal}
use try_it_now.Domain.{url}
use try_it_now.Pool.{route_of}
use try_it_now.Container.{ContainerOptions, Network, ShopConfig, new_instance}
use try_it_now.Container.Docker.{docker_env, docker_spec, setting}
use try_it_now.Proxy.{
  Config, build_caddy_route, upstream_of, CaddyHandlers, and_handler, no_handlers,
}
use try_it_now.Proxy.RoundTrip.{trim_prefix-append, trim_not_there, local_address}

-- Where the first handler of a route sends its requests.
abbrev pub first_upstream : CaddyHandlers → String
first_upstream no_handlers = ""
first_upstream (and_handler first others) = upstream_of first

abbrev pub demo_host : ShopConfig → ContainerOptions → String
demo_host c o = o.common.hostname <> ("." <> c.base_domain)

-- A demo whose hostname has no dot has one address, where Caddy and the containers are given the same
-- base domain: the host that its route matches is that of the URL the user is given and the domain
-- that its Docker container is told, and its requests go to the port that its container publishes.
pub one_address :
    (cfg : Config) (c : ShopConfig) (net : Network) (n : ℕ) (id : String) (o : ContainerOptions)
    → cfg.base_domain ≡ c.base_domain
    → has_char b'.' o.common.hostname ≡ false
    → ((build_caddy_route cfg (route_of (new_instance net n id o.common))).matches
        ≡ (demo_host c o ∷ []) ∷ [])
      × (url (new_instance net n id o.common) c.base_domain ≡ "https://" <> demo_host c o)
      × (contains str_eq (setting "PS_DOMAIN" (demo_host c o)) (docker_spec c o).env ≡ true)
      × (first_upstream (build_caddy_route cfg (route_of (new_instance net n id o.common))).handle
          ≡ "http://localhost:" <> decimal (docker_spec c o).host_port)
unfolding build_caddy_route docker_spec docker_env contains url
one_address cfg c net n id o same plain = (
  ground arith,
  refl,
  ground (arith, eq_refl (setting "PS_DOMAIN" (demo_host c o))),
  rw
      (
        append_assoc "http://" "localhost:" (decimal o.common.port),
        trim_prefix-append "http://" ("localhost:" <> decimal o.common.port),
        trim_not_there "https://" ("localhost:" <> decimal o.common.port)
            (local_address o.common.port),
      )
      refl,
)
