-- ===== src/Store/Limits.antt =====
-- store/valkey.go: rate limits, CheckRateLimit, IncrementRateLimit and CheckAndIncrementRateLimit.
pub mod Counters
pub mod Window
pub mod Promise
pub mod Atomic
use try_it_now.Base.{ℕ, String, Bool, true, false, Option, none, some, leb, ◌||◌, if◌then◌else◌}
use try_it_now.Valkey.{Valkey, Keyspace, ratelimit_hour, ratelimit_day}
use try_it_now.World.{Services, M, pure, now, command, query, perform, ◌>>=◌, ◌>>◌}

-- A missing key reads as 0.
abbrev pub or_zero : Option ℕ → ℕ
or_zero none = 0
or_zero (some n) = n

abbrev pub hour_seconds : ℕ
hour_seconds = 3600

abbrev pub day_seconds : ℕ
day_seconds = 86400

unfoldable pub check_rate_limit : Services → String → ℕ → ℕ → M Bool
check_rate_limit x ip hourly_limit daily_limit = do
  t ← now
  hour_count ← query x (x.valkey.get_count t (ratelimit_hour ip))
  if leb hourly_limit (or_zero hour_count) then pure false else do
    t' ← now
    day_count ← query x (x.valkey.get_count t' (ratelimit_day ip))
    if leb daily_limit (or_zero day_count) then pure false else pure true

unfoldable pub increment_rate_limit : Services → String → M (Unit {0})
increment_rate_limit x ip = do
  t₁ ← now
  perform x (x.valkey.incr t₁ (ratelimit_hour ip))
  t₂ ← now
  perform x (x.valkey.expire t₂ (ratelimit_hour ip) hour_seconds)
  t₃ ← now
  perform x (x.valkey.incr t₃ (ratelimit_day ip))
  t₄ ← now
  perform x (x.valkey.expire t₄ (ratelimit_day ip) day_seconds)

-- checkAndIncrementRateLimitScript; the server's clock stands still while a script runs.
unfoldable pub rate_limit_script : Valkey → ℕ → String → ℕ → ℕ → Keyspace → Bool × Keyspace
rate_limit_script v t ip hourly_limit daily_limit ks =
    let hour_key = ratelimit_hour ip in
    let day_key = ratelimit_day ip in
    let hour_count = or_zero (v.get_count t hour_key ks) in
    let day_count = or_zero (v.get_count t day_key ks) in
    if leb hourly_limit hour_count || leb daily_limit day_count then (false, ks) else (
      true,
      v.expire t day_key day_seconds
          (v.incr t day_key (v.expire t hour_key hour_seconds (v.incr t hour_key ks))),
    )

unfoldable pub check_and_increment_rate_limit : Services → String → ℕ → ℕ → M Bool
unfolding rate_limit_script
check_and_increment_rate_limit x ip hourly_limit daily_limit = do
  t ← now
  command x (rate_limit_script x.valkey t ip hourly_limit daily_limit)
