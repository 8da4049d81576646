-- ===== src/Store/Limits/Promise.antt =====
-- The rate limit keeps what it promises: in no hour, and in no day, is an address allowed more
-- requests than its limit.
use try_it_now.Base.{
  ℕ, ◌*◌, ◌≤◌, ◌≡◌, String, true, false, none, List, [], ◌∷◌, arith, ◌&&◌, str_eq, eq_iff,
  Bool-cases, inl, inr,
}
use try_it_now.Domain.{second}
use try_it_now.Valkey.{Valkey, IsDocumented, Keyspace, ratelimit_hour, ratelimit_day}
use try_it_now.Valkey.Documented.{documented, documented_lem}
use try_it_now.Store.Limits.{rate_limit_script, hour_seconds, day_seconds}
use try_it_now.Store.Limits.Counters.{within_limits, script_allows, hour_counter, day_counter}
use try_it_now.Store.Limits.Window.{
  Request, InOrder, AtMost, Covers, allowed_times, no_times, Covers-later, Covers-bumped,
  AtMost-cons,
}

record Limited (hourly_limit daily_limit : ℕ) (ip : String) (now : ℕ) (history : List ℕ)
    (ks : Keyspace) : Type 0 where
  hour : Covers hour_seconds now history (ks.counters (ratelimit_hour ip))
  day : Covers day_seconds now history (ks.counters (ratelimit_day ip))
  hour_bound : AtMost hourly_limit (hour_seconds * second) history
  day_bound : AtMost daily_limit (day_seconds * second) history

module _ (v : Valkey) (hourly_limit daily_limit : ℕ) (ip : String) where
  script_after : Request → Keyspace → Keyspace
  script_after q ks = (rate_limit_script (documented v) q.at q.ip hourly_limit daily_limit ks).1

  Limited-same :
      (q : Request) (now : ℕ) (history : List ℕ) (ks : Keyspace)
      → now ≤ q.at
      → (within_limits q.at q.ip hourly_limit daily_limit ks && str_eq q.ip ip) ≡ false
      → Limited hourly_limit daily_limit ip now history ks
      → Limited hourly_limit daily_limit ip q.at history (script_after q ks)
  unfolding script_after
  Limited-same q now history ks h e l = record {
    hour =
        rw (hour_counter v q.at q.ip hourly_limit daily_limit ks ip, e)
          (Covers-later hour_seconds now q.at history _ h l.hour);
    day =
        rw (day_counter v q.at q.ip hourly_limit daily_limit ks ip, e)
          (Covers-later day_seconds now q.at history _ h l.day);
    hour_bound = l.hour_bound;
    day_bound = l.day_bound;
  }

  Limited-more :
      (q : Request) (now : ℕ) (history : List ℕ) (ks : Keyspace)
      → now ≤ q.at
      → (within_limits q.at q.ip hourly_limit daily_limit ks && str_eq q.ip ip) ≡ true
      → Limited hourly_limit daily_limit ip now history ks
      → Limited hourly_limit daily_limit ip q.at (q.at ∷ history) (script_after q ks)
  unfolding script_after
  Limited-more q now history ks h e l = record {
    hour =
        rw (hour_counter v q.at q.ip hourly_limit daily_limit ks ip, e)
          (Covers-bumped hour_seconds now q.at history _ h l.hour);
    day =
        rw (day_counter v q.at q.ip hourly_limit daily_limit ks ip, e)
          (Covers-bumped day_seconds now q.at history _ h l.day);
    hour_bound = (
      AtMost-cons hour_seconds now q.at history _ h hourly_limit l.hour
          (ground (arith, eq_iff q.ip ip)),
      l.hour_bound,
    );
    day_bound = (
      AtMost-cons day_seconds now q.at history _ h daily_limit l.day
          (ground (arith, eq_iff q.ip ip)),
      l.day_bound,
    );
  }

  allowed_times_bounds :
      (now : ℕ) (qs : List Request) (history : List ℕ) (ks : Keyspace)
      → InOrder now qs
      → Limited hourly_limit daily_limit ip now history ks
      → let all = allowed_times (documented v) hourly_limit daily_limit ip qs history ks in
        AtMost hourly_limit (hour_seconds * second) all
        × AtMost daily_limit (day_seconds * second) all
  unfolding allowed_times script_after
  allowed_times_bounds now [] history ks o l = (l.hour_bound, l.day_bound)
  allowed_times_bounds now (q ∷ qs) history ks o l =
      let allows = script_allows v q.at q.ip hourly_limit daily_limit ks in
      elim (Bool-cases (within_limits q.at q.ip hourly_limit daily_limit ks && str_eq q.ip ip)) [
        | inl e ↦
            rw (allows, e)
              (allowed_times_bounds q.at qs (q.at ∷ history) _ o.1
                (Limited-more q now history ks o.0 e l))
        | inr e ↦
            rw (allows, e)
              (allowed_times_bounds q.at qs history _ o.1 (Limited-same q now history ks o.0 e l))
      ]

-- An address that has no counter yet.
pub record IsFresh (ip : String) (ks : Keyspace) : Type 0 where
  pub no_hour : ks.counters (ratelimit_hour ip) ≡ none
  pub no_day : ks.counters (ratelimit_day ip) ≡ none

-- Whatever requests reach the server, from whichever addresses, in the order of their times: up to
-- each request that is allowed to an address that began with no counters, that address was allowed
-- at most the hourly limit in the hour before it and at most the daily limit in the day before it.
pub allowed_times_within_limits :
    (v : Valkey) (hourly_limit daily_limit : ℕ) (ip : String) (start : ℕ) (qs : List Request)
    (ks : Keyspace)
    → IsDocumented v
    → InOrder start qs
    → IsFresh ip ks
    → AtMost hourly_limit
        (hour_seconds * second)
        (allowed_times v hourly_limit daily_limit ip qs [] ks)
      × AtMost daily_limit
          (day_seconds * second)
          (allowed_times v hourly_limit daily_limit ip qs [] ks)
allowed_times_within_limits v hourly_limit daily_limit ip start qs ks d o f =
    rw (documented_lem v d) (
      allowed_times_bounds v hourly_limit daily_limit ip start qs [] ks o (record {
        hour = record { past = tt; counted = λ t g. no_times _ t _ };
        day = record { past = tt; counted = λ t g. no_times _ t _ };
        hour_bound = tt;
        day_bound = tt;
      }))
