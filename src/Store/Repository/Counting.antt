-- ===== src/Store/Repository/Counting.antt =====
-- The calls on counters, the statistics and Ping change nothing that a repository holds
-- (store/valkey.go).
use try_it_now.Base.{ℕ, String, ◌≡◌, refl, sym, subst, Bool, true, false, leb, ◌||◌, if◌then◌else◌}
use try_it_now.Domain.{assigned, warming}
use try_it_now.Valkey.{Keyspace, state_set, pool_ready, ratelimit_hour, ratelimit_day, counter}
use try_it_now.World.{Services, M, now, pure, query, perform, ◌>>=◌, ◌>>◌}
use try_it_now.World.Reliable.{documented_services}
use try_it_now.Store.Limits.{
  increment_rate_limit, check_and_increment_rate_limit, rate_limit_script, or_zero, hour_seconds,
  day_seconds,
}
use try_it_now.Store.Totals.{get_pool_stats, increment_counter, ping}
use try_it_now.Domain.Stats.{PoolStats}
use try_it_now.Store.Contract.{Stock}
use try_it_now.Store.Repository.{stock_of}
use try_it_now.Store.Repository.Keeps.{
  Preserves, bind-Preserves, command-Preserves, query-Preserves, perform-Preserves,
}

module _ (P : Stock → Type 0) where
  module _ (x : Services) where
    abbrev y : Services
    y = documented_services x

    pub increment_counter-Preserves : (key : String) → Preserves P (increment_counter y key)
    unfolding increment_counter
    increment_counter-Preserves key w =
        perform-Preserves P y (y.valkey.incr w.clock (counter key)) (λ ks h. h) w

    pub check_and_increment-Preserves :
        (ip : String) (hourly daily : ℕ)
        → Preserves P (check_and_increment_rate_limit y ip hourly daily)
    unfolding check_and_increment_rate_limit rate_limit_script
    check_and_increment-Preserves ip hourly daily w =
        command-Preserves P y (rate_limit_script y.valkey w.clock ip hourly daily)
          (λ ks h.
            chosen
              (leb hourly (or_zero (y.valkey.get_count w.clock (ratelimit_hour ip) ks))
                || leb daily (or_zero (y.valkey.get_count w.clock (ratelimit_day ip) ks)))
              (false, ks)
              (
                true,
                y.valkey.expire w.clock (ratelimit_day ip) day_seconds (
                    y.valkey.incr w.clock (ratelimit_day ip) (
                      y.valkey.expire w.clock (ratelimit_hour ip) hour_seconds
                        (y.valkey.incr w.clock (ratelimit_hour ip) ks))),
              )
              h h)
          w
      where
        chosen :
            (b : Bool) (p q : Bool × Keyspace)
            → P (stock_of p.1)
            → P (stock_of q.1)
            → P (stock_of (if b then p else q).1)
        chosen true p q h g = h
        chosen false p q h g = g

    -- A command on a counter, and what follows it.
    counter-then :
        (f : Keyspace → Keyspace) (k : M (Unit {0}))
        → ((ks : Keyspace) → stock_of (f ks) ≡ stock_of ks)
        → Preserves P k
        → Preserves P (perform y f >> k)
    counter-then f k same g =
        bind-Preserves P (perform y f) (λ _. k)
          (perform-Preserves P y f (λ ks h. subst P (sym (same ks)) h)) (λ _. g)

    pub increment_rate_limit-Preserves : (ip : String) → Preserves P (increment_rate_limit y ip)
    unfolding increment_rate_limit
    increment_rate_limit-Preserves ip w =
        let last : M (Unit {0}) =
          now >>= λ t. perform y (y.valkey.expire t (ratelimit_day ip) day_seconds) in
        let third : M (Unit {0}) =
          now >>= λ t. perform y (y.valkey.incr t (ratelimit_day ip)) >> last in
        let next : M (Unit {0}) =
          now >>= λ t. perform y (y.valkey.expire t (ratelimit_hour ip) hour_seconds) >> third in
        counter-then (y.valkey.incr w.clock (ratelimit_hour ip)) next (λ ks. refl)
          (λ w₂.
            counter-then (y.valkey.expire w₂.clock (ratelimit_hour ip) hour_seconds) third
              (λ ks. refl)
              (λ w₃.
                counter-then (y.valkey.incr w₃.clock (ratelimit_day ip)) last (λ ks. refl)
                  (λ w₄.
                    perform-Preserves P y (y.valkey.expire w₄.clock (ratelimit_day ip) day_seconds)
                      (λ ks h. h) w₄)
                  w₃)
              w₂)
          w

    pub ping-Preserves : Preserves P (ping y)
    unfolding ping
    ping-Preserves = perform-Preserves P y (λ ks. ks) (λ ks h. h)

    pub get_pool_stats-Preserves : Preserves P (get_pool_stats y)
    unfolding get_pool_stats
    get_pool_stats-Preserves =
        let stats : ℕ → ℕ → ℕ → PoolStats = λ ready in_use prepared. record {
          ready = ready;
          assigned = in_use;
          warming = prepared;
          target = 0;
          capacity = 0;
        } in
        let last : ℕ → ℕ → M PoolStats = λ ready in_use.
          query y (y.valkey.scard (state_set warming)) >>= λ prepared.
          pure (stats ready in_use prepared) in
        bind-Preserves P (query y (y.valkey.llen pool_ready))
          (λ ready. query y (y.valkey.scard (state_set assigned)) >>= last ready)
          (query-Preserves P y (y.valkey.llen pool_ready))
          (λ ready.
            bind-Preserves P (query y (y.valkey.scard (state_set assigned))) (last ready)
              (query-Preserves P y (y.valkey.scard (state_set assigned)))
              (λ in_use.
                bind-Preserves P (query y (y.valkey.scard (state_set warming)))
                  (λ prepared. pure (stats ready in_use prepared))
                  (query-Preserves P y (y.valkey.scard (state_set warming))) (λ prepared w h. h)))
