-- ===== src/Store/Repository.antt =====
-- store/valkey.go as the repository of store/repository.go, and where it keeps what one holds.
pub mod Rules
pub mod Texts
pub mod Ports
pub mod Scripts
pub mod Keeps
pub mod Counting
pub mod Expiry
pub mod Refines
use try_it_now.Base.{contains, str_eq}
use try_it_now.Valkey.{
  Keyspace, instance_key, state_set, pool_ready, ports_available, ports_in_use, ports_contain,
}
use try_it_now.World.{Services}
use try_it_now.Store.Instances.{
  save_instance, get_instance, delete_instance, update_instance_state, list_by_state, list_expired,
}
use try_it_now.Store.Queue.{acquire_from_pool, add_to_pool, remove_from_pool}
use try_it_now.Store.Ttl.{
  set_instance_ttl, get_instance_ttl, extend_instance_ttl, extend_instance_ttl_atomic,
}
use try_it_now.Store.Ports.{allocate_port, release_port}
use try_it_now.Store.Limits.{check_rate_limit, increment_rate_limit, check_and_increment_rate_limit}
use try_it_now.Store.Totals.{get_pool_stats, increment_counter, ping}
use try_it_now.Store.Contract.{Repository, Stock}

-- ValkeyRepository
unfoldable pub valkey_repository : Services → Repository
valkey_repository x = record {
  save_instance = save_instance x;
  get_instance = get_instance x;
  delete_instance = delete_instance x;
  update_instance_state = update_instance_state x;
  acquire_from_pool = acquire_from_pool x;
  add_to_pool = add_to_pool x;
  remove_from_pool = remove_from_pool x;
  list_by_state = list_by_state x;
  list_expired = list_expired x;
  set_instance_ttl = set_instance_ttl x;
  get_instance_ttl = get_instance_ttl x;
  extend_instance_ttl = extend_instance_ttl x;
  extend_instance_ttl_atomic = extend_instance_ttl_atomic x;
  allocate_port = allocate_port x;
  release_port = release_port x;
  check_rate_limit = check_rate_limit x;
  increment_rate_limit = increment_rate_limit x;
  check_and_increment_rate_limit = check_and_increment_rate_limit x;
  get_pool_stats = get_pool_stats x;
  increment_counter = increment_counter x;
  ping = ping x;
}

-- The keys under which the stock is kept.
abbrev pub stock_of : Keyspace → Stock
stock_of ks = record {
  texts = λ id. ks.strings (instance_key id);
  listed = λ state id. contains str_eq id (ks.sets (state_set state));
  queue = ks.lists pool_ready;
  free = λ p. ports_contain p (ks.port_sets ports_available);
  in_use = λ p. ports_contain p (ks.port_sets ports_in_use);
}
