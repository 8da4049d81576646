-- ===== src/Store/Limits/Atomic.antt =====
-- CheckRateLimit and then IncrementRateLimit against the one script that does both.
use try_it_now.Base.{ℕ, suc, ◌≡◌, String, Bool, true, false, arith, if◌then◌else◌}
use try_it_now.World.{Services, World, M, pure, command, perform, query, ◌>>=◌, ◌>>◌}
use try_it_now.World.Reliable.{IsReliable, reliable, reliable_lem}
use try_it_now.Store.Limits.{
  check_rate_limit, increment_rate_limit, check_and_increment_rate_limit, rate_limit_script,
}

-- The two operations, one after the other.
abbrev pub check_then_increment : Services → String → ℕ → ℕ → M Bool
check_then_increment x ip hourly_limit daily_limit = do
  allowed ← check_rate_limit x ip hourly_limit daily_limit
  if allowed then (increment_rate_limit x ip >> pure true) else pure false

module _ (x : Services) (w : World) (ip : String) (hourly_limit daily_limit : ℕ) where
  same_reliable :
      ((n : ℕ) → x.elapsed n ≡ 0)
      → ((check_then_increment (reliable x) ip hourly_limit daily_limit w).0
          ≡ (check_and_increment_rate_limit (reliable x) ip hourly_limit daily_limit w).0)
        × ((check_then_increment (reliable x) ip hourly_limit daily_limit w).1.keyspace
            ≡ (check_and_increment_rate_limit
                (reliable x)
                ip
                hourly_limit
                daily_limit
                w).1.keyspace)
  unfolding check_rate_limit increment_rate_limit check_and_increment_rate_limit rate_limit_script
      command perform query
  same_reliable still = ground (
    arith,
    still w.place,
    still (suc w.place),
    still (suc (suc w.place)),
    still (suc (suc (suc w.place))),
    still (suc (suc (suc (suc w.place)))),
    still (suc (suc (suc (suc (suc w.place))))),
  )

-- Where no command is lost and no time passes between the commands of one request, and no other
-- request comes between them, the check followed by the increment answers what the script answers,
-- and leaves the same on the server.
pub check_then_increment_lem :
    (x : Services) (w : World) (ip : String) (hourly_limit daily_limit : ℕ)
    → IsReliable x
    → ((n : ℕ) → x.elapsed n ≡ 0)
    → ((check_then_increment x ip hourly_limit daily_limit w).0
        ≡ (check_and_increment_rate_limit x ip hourly_limit daily_limit w).0)
      × ((check_then_increment x ip hourly_limit daily_limit w).1.keyspace
          ≡ (check_and_increment_rate_limit x ip hourly_limit daily_limit w).1.keyspace)
check_then_increment_lem x w ip hourly_limit daily_limit r still =
    rw (reliable_lem x r) (same_reliable x w ip hourly_limit daily_limit still)
