-- ===== src/Tests/Limits.antt =====
-- The theorems about expiries and rate limits at concrete inputs.
use Prim.Native.Nat.{min}
use try_it_now.Base.{
  ℕ, ◌-◌, ◌+◌, ◌*◌, ◌≤◌, ◌≡◌, refl, String, Option, none, some, List, [], ◌∷◌, arith, if◌then◌else◌,
  str_eq,
}
use try_it_now.Domain.{Instance, ready, second, is_expired, ttl_remaining}
use try_it_now.Domain.Stats.{PoolStats, replenishment_needed, replenishment_needed-eq-min}
use try_it_now.Domain.Lifetime.{ttl_remaining_of_expired}
use try_it_now.Valkey.{Key, instance_key, Keyspace, Value, json}
use try_it_now.World.{World}
use try_it_now.Tests.Sample.{
  sample_valkey, sample_valkey-IsDocumented, sample_instance, calm, calm-IsReliable,
  sample_keyspace, sample_world,
}
use try_it_now.Store.Instances.Lookup.{stored}
use try_it_now.Store.Ttl.{
  extend_script, new_expires_unix, exceeds_max, get_instance_ttl, set_instance_ttl,
}
use try_it_now.Store.Ttl.Bounds.{
  put_off, extend_script_granted, get_instance_ttl-set_instance_ttl, Left,
}
use try_it_now.Store.Limits.{hour_seconds, day_seconds}
use try_it_now.World.{Services}
use try_it_now.World.Reliable.{IsReliable}
use try_it_now.Store.Limits.{check_and_increment_rate_limit}
use try_it_now.Store.Limits.Atomic.{check_then_increment, check_then_increment_lem}
use try_it_now.Store.Limits.Window.{Request, InOrder, AtMost, allowed_times}
use try_it_now.Store.Limits.Promise.{allowed_times_within_limits}

-- An instance that expires at second 100.
abbrev expiring : Instance
expiring = record (sample_instance "e" 3 ready) { expires_at_unix = 100 }

abbrev expiring_strings : Key → Option Value
expiring_strings (instance_key id) = if str_eq id "e" then some (json expiring) else none
expiring_strings _ = none

abbrev expiring_keyspace : Keyspace
expiring_keyspace = record sample_keyspace { strings = expiring_strings }

granted : (extend_script sample_valkey "e" 30 60 90 expiring_keyspace).0 ≡ new_expires_unix 130
unfolding extend_script
granted = refl

granted_example :
    (i : Instance) × (stored "e" expiring_keyspace ≡ some (json i))
    × (130 ≡ i.expires_at_unix + 30)
    × (130 ≤ 90 + 60)
    × ((other : String)
        → stored other (extend_script sample_valkey "e" 30 60 90 expiring_keyspace).1 ≡ (
            if str_eq "e" other
            then some (json (put_off 130 i))
            else stored other expiring_keyspace))
granted_example =
    extend_script_granted sample_valkey "e" 30 60 90 expiring_keyspace 130
      sample_valkey-IsDocumented granted

refused_by_ten : (extend_script sample_valkey "e" 60 60 90 expiring_keyspace).0 ≡ exceeds_max 10
unfolding extend_script
refused_by_ten = refl

ttl_example :
    Left
      (3 * second)
      (7 + 7)
      (get_instance_ttl calm "a" (set_instance_ttl calm "a" (3 * second) sample_world).1).0
ttl_example =
    get_instance_ttl-set_instance_ttl calm sample_world "a" (3 * second)
      (sample_instance "a" 1 ready) calm-IsReliable refl (omega arith)

abbrev extended_keyspace : Keyspace
extended_keyspace = (extend_script sample_valkey "e" 20 90 90 expiring_keyspace).1

abbrev twice_extended : World
twice_extended = record sample_world {
  keyspace = (extend_script sample_valkey "e" 30 90 90 extended_keyspace).1;
}

first_granted :
    (extend_script sample_valkey "e" 20 90 90 expiring_keyspace).0 ≡ new_expires_unix 120
unfolding extend_script
first_granted = refl

second_granted :
    (extend_script sample_valkey "e" 30 90 90 extended_keyspace).0 ≡ new_expires_unix 150
unfolding extend_script
second_granted = refl

abbrev five_requests : List Request
five_requests =
    record { at = 10; ip = "x" }
    ∷ record { at = 20; ip = "y" }
    ∷ record { at = 30; ip = "x" }
    ∷ record { at = 40; ip = "x" }
    ∷ record { at = 50; ip = "x" }
    ∷ []

within_limits_example :
    AtMost 2
      (hour_seconds * second)
      (allowed_times sample_valkey 2 3 "x" five_requests [] sample_keyspace)
    × AtMost 3
        (day_seconds * second)
        (allowed_times sample_valkey 2 3 "x" five_requests [] sample_keyspace)
within_limits_example =
    allowed_times_within_limits sample_valkey 2 3 "x" 0 five_requests sample_keyspace
      sample_valkey-IsDocumented in_order (record { no_hour = refl; no_day = refl })
  where
    in_order : InOrder 0 five_requests
    in_order = (omega arith, (omega arith, (omega arith, (omega arith, (omega arith, tt)))))

abbrev short_stats : PoolStats
short_stats = record { ready = 1; assigned = 2; warming = 1; target = 5; capacity = 6 }

min_example : replenishment_needed short_stats ≡ min (5 - (1 + 1)) (6 - (1 + 2 + 1))
min_example = replenishment_needed-eq-min short_stats

expired_example :
    ttl_remaining (300 * second) (record expiring { expires_at = some (100 * second) }) ≡ 0
unfolding is_expired
expired_example =
    ttl_remaining_of_expired (300 * second) (record expiring { expires_at = some (100 * second) })
      refl

-- Services between whose commands no time passes.
abbrev still : Services
still = record calm { elapsed = λ n. 0 }

still-IsReliable : IsReliable still
still-IsReliable = record {
  documented_server = sample_valkey-IsDocumented;
  all_delivered = λ n. refl;
}

no_time_passes : (n : ℕ) → still.elapsed n ≡ 0
no_time_passes n = refl

atomic_example :
    ((check_then_increment still "x" 2 3 sample_world).0
      ≡ (check_and_increment_rate_limit still "x" 2 3 sample_world).0)
    × ((check_then_increment still "x" 2 3 sample_world).1.keyspace
        ≡ (check_and_increment_rate_limit still "x" 2 3 sample_world).1.keyspace)
atomic_example = check_then_increment_lem still sample_world "x" 2 3 still-IsReliable no_time_passes
