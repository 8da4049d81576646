-- ===== src/Store/Connection.antt =====
-- store/valkey.go: NewValkeyRepository. Whether the client can be made is a parameter.
use try_it_now.Base.{String, ◌≡◌, Bool, true, List, [], ◌∷◌, str_eq, eq_iff, arith, if◌then◌else◌}
use try_it_now.Base.Int.{ℤ}
use try_it_now.Config.{StoreConfig, ContainerConfig}
use try_it_now.Domain.{failure}
use try_it_now.World.{Result, ok, err}

-- valkey.ClientOption, as far as it is set; an empty password is none.
pub record ClientOption : Type 0 where
  pub init_address : List String
  pub select_db : ℤ
  pub password : String

abbrev pub client_option : StoreConfig → ClientOption
client_option cfg = record {
  init_address = cfg.valkey_addr ∷ [];
  select_db = cfg.db;
  password = if str_eq cfg.password "" then "" else cfg.password;
}

-- ValkeyRepository, its client given by the options.
pub record ValkeyRepository : Type 0 where
  pub client : ClientOption
  pub port_start : ℤ
  pub port_end : ℤ

unfoldable pub new_valkey_repository :
    (ClientOption → Bool) → StoreConfig → ContainerConfig → Result ValkeyRepository
new_valkey_repository connects cfg container =
    let made : ValkeyRepository = record {
      client = client_option cfg;
      port_start = container.port_range_start;
      port_end = container.port_range_end;
    } in
    if connects (client_option cfg) then ok made else err failure

-- The repository has the address, the database, the password and the ports of its settings.
new_valkey_repository_lem :
    (connects : ClientOption → Bool) (cfg : StoreConfig) (container : ContainerConfig)
    → connects (record {
      init_address = cfg.valkey_addr ∷ [];
      select_db = cfg.db;
      password = cfg.password;
    })
      ≡ true
    → new_valkey_repository connects cfg container
      ≡ ok (record {
        client = record {
          init_address = cfg.valkey_addr ∷ [];
          select_db = cfg.db;
          password = cfg.password;
        };
        port_start = container.port_range_start;
        port_end = container.port_range_end;
      })
unfolding new_valkey_repository
new_valkey_repository_lem connects cfg container h = ground (arith, h, eq_iff cfg.password "")
