-- ===== src/Valkey.antt =====
-- What internal/store asks of the Valkey server: the keys (the constants of store/valkey.go), the
-- data that the server keeps under them, its commands, and their documented behaviour.
--
-- The server is no code of the repository: the commands are the fields of a record that every
-- operation takes, and `IsDocumented` states what the reference says of each. Which member SPOP
-- takes and the order of SMEMBERS are left open. The data are split by what the program keeps under
-- a key: the JSON text of an instance, a list of identifiers, a set of identifiers, a set of ports
-- (decimal texts, taken as the numbers that they spell) and a counter that may expire.
pub mod Documented
use try_it_now.Base.{
  ℕ, suc, ◌+◌, ◌*◌, String, ◌≡◌, Bool, true, false, Option, none, some, List, [], ◌∷◌, ◌++◌, str_eq,
  ◌==◌, if◌then◌else◌, length, contains, insert, insert_all, remove, remove_first, leb,
}
use try_it_now.Domain.{Instance, InstanceState, state_eq, second}

pub data Key : Type 0 where
  instance_key : String → Key
  pool_ready : Key
  state_set : InstanceState → Key
  ports_available ports_in_use : Key
  ratelimit_hour ratelimit_day counter : String → Key

abbrev pub key_eq : Key → Key → Bool
key_eq (instance_key a) (instance_key b) = str_eq a b
key_eq pool_ready pool_ready = true
key_eq (state_set a) (state_set b) = state_eq a b
key_eq ports_available ports_available = true
key_eq ports_in_use ports_in_use = true
key_eq (ratelimit_hour a) (ratelimit_hour b) = str_eq a b
key_eq (ratelimit_day a) (ratelimit_day b) = str_eq a b
key_eq (counter a) (counter b) = str_eq a b
key_eq _ _ = false

-- A stored text, by what decoding it gives: `json.Marshal` and `cjson.encode` write `json i`, which
-- `json.Unmarshal` and `cjson.decode` read as `i`; any other text is malformed.
pub data Value : Type 0 where
  json : Instance → Value
  malformed : Value

-- An integer, and the time from which it is gone.
pub record Counter : Type 0 where
  pub count : ℕ
  pub expires : Option ℕ

pub record Keyspace : Type 0 where
  pub strings : Key → Option Value
  pub lists : Key → List String
  pub sets : Key → List String
  pub port_sets : Key → List ℕ
  pub counters : Key → Option Counter

abbrev pub update {ℓ} : {A : Type ℓ} → (Key → A) → Key → A → Key → A
update f k v j = if key_eq k j then v else f j

-- One field for each command. The commands on counters take the server's clock.
pub record Valkey : Type 0 where
  pub get : Key → Keyspace → Option Value
  pub set : Key → Value → Keyspace → Keyspace
  pub del : Key → Keyspace → Keyspace
  pub lpop : Key → Keyspace → Option String × Keyspace
  pub rpush : Key → String → Keyspace → Keyspace
  pub lrem_one : Key → String → Keyspace → Keyspace
  pub llen : Key → Keyspace → ℕ
  pub sadd : Key → String → Keyspace → Keyspace
  pub srem : Key → String → Keyspace → Keyspace
  pub scard : Key → Keyspace → ℕ
  pub smembers : Key → Keyspace → List String
  pub port_sadd : Key → List ℕ → Keyspace → Keyspace
  pub port_srem : Key → ℕ → Keyspace → Keyspace
  pub port_scard : Key → Keyspace → ℕ
  pub port_spop : Key → Keyspace → Option ℕ × Keyspace
  pub get_count : ℕ → Key → Keyspace → Option ℕ
  pub incr : ℕ → Key → Keyspace → Keyspace
  pub expire : ℕ → Key → ℕ → Keyspace → Keyspace

-- LPOP
abbrev pub popped : List String → Option String × List String
popped [] = (none, [])
popped (x ∷ xs) = (some x, xs)

-- What a counter reads at a time.
abbrev pub live_count : ℕ → Option Counter → Option ℕ
live_count now none = none
live_count now (some c) = elim c.expires [
  | none ↦ some c.count
  | some t ↦ if leb t now then none else some c.count
]

-- INCR starts from 0 where the key is gone, and keeps the expiry where it is not.
abbrev pub incremented : ℕ → Option Counter → Counter
incremented now none = record { count = 1; expires = none }
incremented now (some c) = elim (live_count now (some c)) [
  | none ↦ record { count = 1; expires = none }
  | some n ↦ record { count = suc n; expires = c.expires }
]

-- EXPIRE does nothing where the key is gone.
abbrev pub expiring : ℕ → ℕ → Option Counter → Option Counter
expiring now seconds none = none
expiring now seconds (some c) = elim (live_count now (some c)) [
  | none ↦ none
  | some n ↦ some (record { count = n; expires = some (now + seconds * second) })
]

abbrev pub ports_contain : ℕ → List ℕ → Bool
ports_contain = contains ◌==◌

-- SPOP: nothing from an empty set, and else some member, which leaves the set.
abbrev pub SpopOutcome : Key → Keyspace → Option ℕ × Keyspace → Type 0
SpopOutcome k ks (none, after) = (ks.port_sets k ≡ []) × (after ≡ ks)
SpopOutcome k ks (some p, after) =
    (ports_contain p (ks.port_sets k) ≡ true)
    × (after ≡ record ks { port_sets = update ks.port_sets k (remove ◌==◌ p (ks.port_sets k)) })

pub record IsDocumented (v : Valkey) : Type 0 where
  pub get_lem : (k : Key) (ks : Keyspace) → v.get k ks ≡ ks.strings k
  pub set_lem :
      (k : Key) (t : Value) (ks : Keyspace)
      → v.set k t ks ≡ record ks { strings = update ks.strings k (some t) }
  pub del_lem :
      (k : Key) (ks : Keyspace) → v.del k ks ≡ record ks { strings = update ks.strings k none }
  pub lpop_lem :
      (k : Key) (ks : Keyspace)
      → v.lpop k ks
        ≡ ((popped (ks.lists k)).0, record ks { lists = update ks.lists k (popped (ks.lists k)).1 })
  pub rpush_lem :
      (k : Key) (x : String) (ks : Keyspace)
      → v.rpush k x ks ≡ record ks { lists = update ks.lists k (ks.lists k ++ x ∷ []) }
  pub lrem_one_lem :
      (k : Key) (x : String) (ks : Keyspace)
      → v.lrem_one k x ks
        ≡ record ks { lists = update ks.lists k (remove_first str_eq x (ks.lists k)) }
  pub llen_lem : (k : Key) (ks : Keyspace) → v.llen k ks ≡ length (ks.lists k)
  pub sadd_lem :
      (k : Key) (x : String) (ks : Keyspace)
      → v.sadd k x ks ≡ record ks { sets = update ks.sets k (insert str_eq x (ks.sets k)) }
  pub srem_lem :
      (k : Key) (x : String) (ks : Keyspace)
      → v.srem k x ks ≡ record ks { sets = update ks.sets k (remove str_eq x (ks.sets k)) }
  pub scard_lem : (k : Key) (ks : Keyspace) → v.scard k ks ≡ length (ks.sets k)
  pub smembers_lem :
      (k : Key) (x : String) (ks : Keyspace)
      → contains str_eq x (v.smembers k ks) ≡ contains str_eq x (ks.sets k)
  pub port_sadd_lem :
      (k : Key) (ps : List ℕ) (ks : Keyspace)
      → v.port_sadd k ps ks
        ≡ record ks { port_sets = update ks.port_sets k (insert_all ◌==◌ ps (ks.port_sets k)) }
  pub port_srem_lem :
      (k : Key) (p : ℕ) (ks : Keyspace)
      → v.port_srem k p ks
        ≡ record ks { port_sets = update ks.port_sets k (remove ◌==◌ p (ks.port_sets k)) }
  pub port_scard_lem : (k : Key) (ks : Keyspace) → v.port_scard k ks ≡ length (ks.port_sets k)
  pub port_spop_lem : (k : Key) (ks : Keyspace) → SpopOutcome k ks (v.port_spop k ks)
  pub get_count_lem :
      (now : ℕ) (k : Key) (ks : Keyspace) → v.get_count now k ks ≡ live_count now (ks.counters k)
  pub incr_lem :
      (now : ℕ) (k : Key) (ks : Keyspace)
      → v.incr now k ks
        ≡ record ks { counters = update ks.counters k (some (incremented now (ks.counters k))) }
  pub expire_lem :
      (now : ℕ) (k : Key) (seconds : ℕ) (ks : Keyspace)
      → v.expire now k seconds ks
        ≡ record ks { counters = update ks.counters k (expiring now seconds (ks.counters k)) }
