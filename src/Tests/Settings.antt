-- ===== src/Tests/Settings.antt =====
-- The theorems about the configuration and addresses at concrete inputs.
use try_it_now.Base.{ℕ, ◌≡◌, refl, String, true, none, [], ◌∷◌, str_eq, if◌then◌else◌, contains}
use try_it_now.Base.Text.{◌<>◌, decimal, has_char}
use try_it_now.Config.{Environment}
use try_it_now.Container.{new_instance}
use try_it_now.Container.Docker.{docker_spec, setting}
use try_it_now.Container.Address.{one_address, demo_host, first_upstream}
use try_it_now.Domain.{url}
use try_it_now.Pool.{route_of}
use try_it_now.Proxy.{build_caddy_route}
use try_it_now.Tests.Engines.{sample_shop, sample_network, sample_options}
use try_it_now.Tests.Outside.{sample_config}

abbrev variables : String → String
variables key =
    if str_eq key "TRUSTED_PROXIES"
    then "10.0.0.1,::1"
    else if str_eq key "SERVER_PORT"
    then "9090"
    else ""

abbrev sample_environment : Environment ℕ
sample_environment = record {
  getenv = variables;
  parse_float = λ s. none;
  parse_duration = λ s. none;
  half = 5;
}

address_example :
    ((build_caddy_route sample_config
        (route_of (new_instance sample_network 0 "c1" sample_options.common))).matches
      ≡ (demo_host sample_shop sample_options ∷ []) ∷ [])
    × (url (new_instance sample_network 0 "c1" sample_options.common) sample_shop.base_domain
        ≡ "https://" <> demo_host sample_shop sample_options)
    × (contains str_eq
          (setting "PS_DOMAIN" (demo_host sample_shop sample_options))
          (docker_spec sample_shop sample_options).env
        ≡ true)
    × (first_upstream
          (build_caddy_route sample_config
            (route_of (new_instance sample_network 0 "c1" sample_options.common))).handle
        ≡ "http://localhost:" <> decimal (docker_spec sample_shop sample_options).host_port)
unfolding has_char
address_example =
    one_address sample_config sample_shop sample_network 0 "c1" sample_options refl refl
