-- ===== src/Store/Limits/Counters.antt =====
-- The counters of the rate limit: one INCR and EXPIRE, and what the script does to every counter.
use try_it_now.Base.{
  ℕ, suc, ◌+◌, ◌*◌, ◌≡◌, String, Bool, Option, none, some, arith, ltb, ◌&&◌, if◌then◌else◌, str_eq,
  eq_iff,
}
use try_it_now.Domain.{second}
use try_it_now.Valkey.{
  Valkey, Keyspace, Counter, ratelimit_hour, ratelimit_day, live_count, incremented, expiring,
}
use try_it_now.Valkey.Documented.{documented}
use try_it_now.Store.Limits.{or_zero, rate_limit_script, hour_seconds, day_seconds}

-- INCR and then EXPIRE, at one time.
abbrev pub bumped : ℕ → ℕ → Option Counter → Option Counter
bumped now seconds c = expiring now seconds (some (incremented now c))

-- A bumped counter reads one more until its time has passed, and is gone from then on.
pub live_count-bumped :
    (now seconds t : ℕ) (c : Option Counter)
    → live_count t (bumped now seconds c)
      ≡ (if ltb t (now + seconds * second) then some (suc (or_zero (live_count now c))) else none)
live_count-bumped now seconds t none = ground arith
live_count-bumped now seconds t (some c) = ground arith

-- Neither limit is reached.
abbrev pub within_limits : ℕ → String → ℕ → ℕ → Keyspace → Bool
within_limits t ip hourly_limit daily_limit ks =
    ltb (or_zero (live_count t (ks.counters (ratelimit_hour ip)))) hourly_limit
    && ltb (or_zero (live_count t (ks.counters (ratelimit_day ip)))) daily_limit

module _ (v : Valkey) (t : ℕ) (ip : String) (hourly_limit daily_limit : ℕ) (ks : Keyspace) where
  pub script_allows :
      (rate_limit_script (documented v) t ip hourly_limit daily_limit ks).0
      ≡ within_limits t ip hourly_limit daily_limit ks
  unfolding rate_limit_script
  script_allows = ground arith

  -- The counters of the address are bumped where the request is allowed, and no others.
  pub hour_counter :
      (other : String)
      → (rate_limit_script (documented v) t ip hourly_limit daily_limit ks).1.counters
          (ratelimit_hour other)
        ≡ (if within_limits t ip hourly_limit daily_limit ks && str_eq ip other
            then bumped t hour_seconds (ks.counters (ratelimit_hour other))
            else ks.counters (ratelimit_hour other))
  unfolding rate_limit_script
  hour_counter other = ground (arith, eq_iff ip other, eq_iff ip ip)

  pub day_counter :
      (other : String)
      → (rate_limit_script (documented v) t ip hourly_limit daily_limit ks).1.counters
          (ratelimit_day other)
        ≡ (if within_limits t ip hourly_limit daily_limit ks && str_eq ip other
            then bumped t day_seconds (ks.counters (ratelimit_day other))
            else ks.counters (ratelimit_day other))
  unfolding rate_limit_script
  day_counter other = ground (arith, eq_iff ip other, eq_iff ip ip)
