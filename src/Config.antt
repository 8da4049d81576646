-- ===== src/Config.antt =====
-- internal/config/config.go: the settings, read from the environment. What is not set, or does not
-- parse, has its default. The environment and the parsers of floats and durations are parameters.
pub mod Lists
use try_it_now.Base.{
  ℕ, ◌*◌, String, Bool, true, false, Option, none, some, List, [], ◌∷◌, ◌==◌, ◌||◌, str_eq,
  if◌then◌else◌, map,
}
use try_it_now.Base.Int.{ℤ, pos}
use try_it_now.Base.Number.{parse_int}
use try_it_now.Base.Text.{split_at, trim_space, without_blanks}

-- os.Getenv, which answers "" where nothing is set, strconv.ParseFloat into `F`, and
-- time.ParseDuration, in nanoseconds; `half` is 0.5.
pub record Environment (F : Type 0) : Type 0 where
  pub getenv : String → String
  pub parse_float : String → Option F
  pub parse_duration : String → Option ℤ
  pub half : F

pub record LogConfig : Type 0 where
  pub level : String
  pub format : String

pub record ServerConfig : Type 0 where
  pub host : String
  pub port : ℤ
  pub read_timeout : ℤ
  pub write_timeout : ℤ
  pub api_key : String
  pub trusted_proxies : List String

pub record PoolConfig (F : Type 0) : Type 0 where
  pub target_size : ℤ
  pub min_size : ℤ
  pub max_size : ℤ
  pub replenish_threshold : F
  pub replenish_interval : ℤ
  pub default_ttl : ℤ
  pub max_ttl : ℤ

pub record ContainerConfig : Type 0 where
  pub mode : String
  pub checkpoint_path : String
  pub image : String
  pub network : String
  pub port_range_start : ℤ
  pub port_range_end : ℤ
  pub podman_socket_path : String
  pub criu_enabled : Bool

pub record ProxyConfig : Type 0 where
  pub caddy_admin_url : String
  pub base_domain : String

pub record StoreConfig : Type 0 where
  pub valkey_addr : String
  pub password : String
  pub db : ℤ

pub record QueueConfig : Type 0 where
  pub nats_url : String
  pub stream_name : String
  pub worker_count : ℤ

pub record PrestaShopConfig : Type 0 where
  pub db_host : String
  pub db_port : ℤ
  pub db_name : String
  pub db_user : String
  pub db_password : String
  pub admin_path : String
  pub demo_user : String
  pub demo_pass : String

pub record RateLimitConfig : Type 0 where
  pub requests_per_hour : ℤ
  pub requests_per_day : ℤ

pub record Config (F : Type 0) : Type 0 where
  pub log : LogConfig
  pub server : ServerConfig
  pub pool : PoolConfig F
  pub container : ContainerConfig
  pub proxy : ProxyConfig
  pub store : StoreConfig
  pub queue : QueueConfig
  pub presta_shop : PrestaShopConfig
  pub rate_limit : RateLimitConfig

-- A value that does not parse is as one that is not set.
abbrev pub parsed : {A : Type 0} → Option A → A → A
parsed none default = default
parsed (some a) default = a

-- strconv.ParseBool
unfoldable pub parse_bool : String → Option Bool
parse_bool s =
    if str_eq s "1"
      || (str_eq s "t"
          || (str_eq s "T" || (str_eq s "true" || (str_eq s "TRUE" || str_eq s "True"))))
    then some true
    else if str_eq s "0"
        || (str_eq s "f"
            || (str_eq s "F" || (str_eq s "false" || (str_eq s "FALSE" || str_eq s "False"))))
    then some false
    else none

abbrev pub one_of : List String → List String → List String
one_of [] default = default
one_of (part ∷ parts) default = part ∷ parts

module _ {F : Type 0} (env : Environment F) where
  unfoldable pub get_env : String → String → String
  get_env key default = let value = env.getenv key in if str_eq value "" then default else value

  unfoldable pub get_env_int : String → ℤ → ℤ
  get_env_int key default =
      let value = env.getenv key in
      if str_eq value "" then default else parsed (parse_int value) default

  unfoldable pub get_env_float : String → F → F
  get_env_float key default =
      let value = env.getenv key in
      if str_eq value "" then default else parsed (env.parse_float value) default

  unfoldable pub get_env_duration : String → ℤ → ℤ
  get_env_duration key default =
      let value = env.getenv key in
      if str_eq value "" then default else parsed (env.parse_duration value) default

  unfoldable pub get_env_bool : String → Bool → Bool
  get_env_bool key default =
      let value = env.getenv key in
      if str_eq value "" then default else parsed (parse_bool value) default

  unfoldable pub get_env_string_slice : String → List String → List String
  unfolding split_at without_blanks
  get_env_string_slice key default =
      let value = env.getenv key in
      if str_eq value ""
      then default
      else one_of (without_blanks (map trim_space (split_at (λ d. d == b',') value))) default

  -- A number of seconds.
  abbrev seconds : ℕ → ℤ
  seconds n = pos (n * 1000000000)

  unfoldable pub load : Config F
  unfolding get_env get_env_int get_env_float get_env_duration get_env_bool get_env_string_slice
  load =
      let log : LogConfig = record {
        level = get_env "LOG_LEVEL" "info";
        format = get_env "LOG_FORMAT" "json";
      } in
      let server : ServerConfig = record {
        host = get_env "SERVER_HOST" "0.0.0.0";
        port = get_env_int "SERVER_PORT" (pos 8080);
        read_timeout = get_env_duration "SERVER_READ_TIMEOUT" (seconds 30);
        write_timeout = get_env_duration "SERVER_WRITE_TIMEOUT" (seconds 30);
        api_key = get_env "API_KEY" "";
        trusted_proxies = get_env_string_slice "TRUSTED_PROXIES" ("127.0.0.1" ∷ "::1" ∷ []);
      } in
      let pool : PoolConfig F = record {
        target_size = get_env_int "POOL_TARGET_SIZE" (pos 10);
        min_size = get_env_int "POOL_MIN_SIZE" (pos 3);
        max_size = get_env_int "POOL_MAX_SIZE" (pos 20);
        replenish_threshold = get_env_float "POOL_REPLENISH_THRESHOLD" env.half;
        replenish_interval = get_env_duration "POOL_REPLENISH_INTERVAL" (seconds 10);
        default_ttl = get_env_duration "POOL_DEFAULT_TTL" (seconds 3600);
        max_ttl = get_env_duration "POOL_MAX_TTL" (seconds 86400);
      } in
      let container : ContainerConfig = record {
        mode = get_env "CONTAINER_MODE" "docker";
        checkpoint_path =
            get_env "CONTAINER_CHECKPOINT_PATH" "/var/lib/checkpoints/prestashop.tar.gz";
        image = get_env "CONTAINER_IMAGE" "nginx:alpine";
        network = get_env "CONTAINER_NETWORK" "deployments_demo-net";
        port_range_start = get_env_int "CONTAINER_PORT_RANGE_START" (pos 32000);
        port_range_end = get_env_int "CONTAINER_PORT_RANGE_END" (pos 32999);
        podman_socket_path = get_env "PODMAN_SOCKET_PATH" "unix:///run/podman/podman.sock";
        criu_enabled = get_env_bool "CRIU_ENABLED" true;
      } in
      let proxy : ProxyConfig = record {
        caddy_admin_url = get_env "CADDY_ADMIN_URL" "http://localhost:2019";
        base_domain = get_env "BASE_DOMAIN" "localhost";
      } in
      let store : StoreConfig = record {
        valkey_addr = get_env "VALKEY_ADDR" "localhost:6379";
        password = get_env "VALKEY_PASSWORD" "";
        db = get_env_int "VALKEY_DB" (pos 0);
      } in
      let queue : QueueConfig = record {
        nats_url = get_env "NATS_URL" "nats://localhost:4222";
        stream_name = get_env "NATS_STREAM_NAME" "PROVISIONING";
        worker_count = get_env_int "NATS_WORKER_COUNT" (pos 3);
      } in
      let presta_shop : PrestaShopConfig = record {
        db_host = get_env "PS_DB_HOST" "localhost";
        db_port = get_env_int "PS_DB_PORT" (pos 3306);
        db_name = get_env "PS_DB_NAME" "prestashop_demos";
        db_user = get_env "PS_DB_USER" "demo";
        db_password = get_env "PS_DB_PASSWORD" "devpass";
        admin_path = get_env "PS_ADMIN_PATH" "admin-demo";
        demo_user = get_env "PS_DEMO_USER" "demo@demo.com";
        demo_pass = get_env "PS_DEMO_PASS" "demodemo";
      } in
      let rate_limit : RateLimitConfig = record {
        requests_per_hour = get_env_int "RATE_LIMIT_HOURLY" (pos 2);
        requests_per_day = get_env_int "RATE_LIMIT_DAILY" (pos 5);
      } in
      record {
        log = log;
        server = server;
        pool = pool;
        container = container;
        proxy = proxy;
        store = store;
        queue = queue;
        presta_shop = presta_shop;
        rate_limit = rate_limit;
      }
