-- ===== src/Tests/Sample.antt =====
-- A server that behaves as documented, services over it, and some stored instances.
use try_it_now.Base.{
  ℕ, ◌≡◌, refl, String, str_eq, Bool, true, false, Option, none, some, List, [], ◌∷◌, arith, ◌==◌,
  remove, contains, if◌then◌else◌,
}
use try_it_now.Domain.{Instance, InstanceState, ready}
use try_it_now.Valkey.{
  Valkey, IsDocumented, Keyspace, Key, Value, json, SpopOutcome, update, instance_key, pool_ready,
  state_set, ports_available, ports_in_use,
}
use try_it_now.Valkey.Documented.{documented}
use try_it_now.World.{Services, World, Fault, delivered}
use try_it_now.World.Reliable.{IsReliable}

-- SPOP takes the first member.
abbrev pop_first : Key → List ℕ → Keyspace → Option ℕ × Keyspace
pop_first k [] ks = (none, ks)
pop_first k (p ∷ ps) ks =
    (some p, record ks { port_sets = update ks.port_sets k (remove ◌==◌ p (p ∷ ps)) })

abbrev seed : Valkey
seed = record {
  get = λ k ks. none;
  set = λ k t ks. ks;
  del = λ k ks. ks;
  lpop = λ k ks. (none, ks);
  rpush = λ k x ks. ks;
  lrem_one = λ k x ks. ks;
  llen = λ k ks. 0;
  sadd = λ k x ks. ks;
  srem = λ k x ks. ks;
  scard = λ k ks. 0;
  smembers = λ k ks. ks.sets k;
  port_sadd = λ k ps ks. ks;
  port_srem = λ k p ks. ks;
  port_scard = λ k ks. 0;
  port_spop = λ k ks. pop_first k (ks.port_sets k) ks;
  get_count = λ now k ks. none;
  incr = λ now k ks. ks;
  expire = λ now k seconds ks. ks;
}

abbrev pub sample_valkey : Valkey
sample_valkey = documented seed

pop_first-SpopOutcome :
    (k : Key) (ks : Keyspace) (ps : List ℕ)
    → ks.port_sets k ≡ ps
    → SpopOutcome k ks (pop_first k ps ks)
unfolding contains remove
pop_first-SpopOutcome k ks [] e = (e, refl)
pop_first-SpopOutcome k ks (p ∷ ps) e = rw e (ground arith, refl)

pub sample_valkey-IsDocumented : IsDocumented sample_valkey
sample_valkey-IsDocumented = record {
  get_lem = λ k ks. refl;
  set_lem = λ k t ks. refl;
  del_lem = λ k ks. refl;
  lpop_lem = λ k ks. refl;
  rpush_lem = λ k x ks. refl;
  lrem_one_lem = λ k x ks. refl;
  llen_lem = λ k ks. refl;
  sadd_lem = λ k x ks. refl;
  srem_lem = λ k x ks. refl;
  scard_lem = λ k ks. refl;
  smembers_lem = λ k x ks. refl;
  port_sadd_lem = λ k ps ks. refl;
  port_srem_lem = λ k p ks. refl;
  port_scard_lem = λ k ks. refl;
  port_spop_lem = λ k ks. pop_first-SpopOutcome k ks (ks.port_sets k) refl;
  get_count_lem = λ now k ks. refl;
  incr_lem = λ now k ks. refl;
  expire_lem = λ now k seconds ks. refl;
}

abbrev pub sample_instance : String → ℕ → InstanceState → Instance
sample_instance id port state = record {
  id = id;
  container_id = "c1";
  hostname = "demo-1";
  port = port;
  state = state;
  db_prefix = "d1_";
  user_ip = "";
  created_at = 5;
  assigned_at = none;
  expires_at = none;
  expires_at_unix = 0;
}

-- A runtime that starts every container and finds each healthy; no CRIU, no database. The answer of
-- the route manager is a parameter, and so are the faults.
abbrev pub sample_services : (ℕ → Fault) → Bool → Services
sample_services fault routed = record {
  valkey = sample_valkey;
  fault = fault;
  elapsed = λ n. 7;
  runtime = record {
    criu = false;
    restore = λ n o. none;
    start = λ n o. some (sample_instance "new" o.port ready);
    stop = λ n id. true;
    health_check = λ n id. some true;
  };
  routes = record { add_route = λ n r. routed; remove_route = λ n h. true };
  database = none;
  interrupted = λ n. false;
  uuid = λ n. "0123-4567-89ab";
}

abbrev pub calm : Services
calm = sample_services (λ n. delivered) true

abbrev pub unrouted : Services
unrouted = sample_services (λ n. delivered) false

pub calm-IsReliable : IsReliable calm
calm-IsReliable = record {
  documented_server = sample_valkey-IsDocumented;
  all_delivered = λ n. refl;
}

pub unrouted-IsReliable : IsReliable unrouted
unrouted-IsReliable = record {
  documented_server = sample_valkey-IsDocumented;
  all_delivered = λ n. refl;
}

-- Two ready instances wait; ports 3 and 4 are available, 1 and 2 are in use.
abbrev sample_strings : Key → Option Value
sample_strings (instance_key id) =
    if str_eq id "a"
    then some (json (sample_instance "a" 1 ready))
    else if str_eq id "b"
    then some (json (sample_instance "b" 2 ready))
    else none
sample_strings _ = none

abbrev sample_lists : Key → List String
sample_lists pool_ready = "a" ∷ "b" ∷ []
sample_lists _ = []

abbrev sample_sets : Key → List String
sample_sets (state_set ready) = "a" ∷ "b" ∷ []
sample_sets _ = []

abbrev sample_port_sets : Key → List ℕ
sample_port_sets ports_available = 3 ∷ 4 ∷ []
sample_port_sets ports_in_use = 1 ∷ 2 ∷ []
sample_port_sets _ = []

abbrev pub sample_keyspace : Keyspace
sample_keyspace = record {
  strings = sample_strings;
  lists = sample_lists;
  sets = sample_sets;
  port_sets = sample_port_sets;
  counters = λ k. none;
}

abbrev pub sample_world : World
sample_world = record {
  keyspace = sample_keyspace;
  clock = 5000000000;
  place = 0;
  trace = [];
  triggered = false;
}

-- The same with no port available.
abbrev no_ports : Key → List ℕ
no_ports ports_in_use = 1 ∷ 2 ∷ []
no_ports _ = []

abbrev pub full_world : World
full_world = record sample_world { keyspace = record sample_keyspace { port_sets = no_ports } }
