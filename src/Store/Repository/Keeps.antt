-- ===== src/Store/Repository/Keeps.antt =====
-- The calls that change nothing that a repository holds (store/valkey.go).
use try_it_now.Base.{ℕ, String, Bool, true, false, List, [], ◌∷◌, leb, if◌then◌else◌}
use try_it_now.Domain.{
  Instance, InstanceState, pool_exhausted, instance_not_found, no_ports_available,
  route_creation_failed, route_not_found, failure, max_ttl_exceeded, assigned, ttl_remaining,
}
use try_it_now.Valkey.{Keyspace, instance_key, state_set, ratelimit_hour, ratelimit_day}
use try_it_now.World.{
  Services, World, Result, ok, err, M, now, pure, lift, command, query, perform, continue, attempt,
  ◌>>=◌,
}
use try_it_now.Store.Instances.{
  get_instance, decode, add_listed, get_all, list_by_state, list_expired, only_expired,
}
use try_it_now.Store.Ttl.{get_instance_ttl}
use try_it_now.Store.Limits.{check_rate_limit, or_zero}
use try_it_now.Store.Contract.{Stock}
use try_it_now.Store.Repository.{stock_of}
use try_it_now.Store.Repository.Rules.{deliver-cases}

-- A call that keeps what holds of the stock.
abbrev pub Preserves : {A : Type 0} → (Stock → Type 0) → M A → Type 0
Preserves P m = (w : World) → P (stock_of w.keyspace) → P (stock_of (m w).1.keyspace)

module _ (P : Stock → Type 0) where
  continue-Preserves :
      {A B : Type 0} (r : Result A) (k : A → M B)
      → ((a : A) → Preserves P (k a))
      → Preserves P (continue r k)
  continue-Preserves (ok a) k g w h = g a w h
  continue-Preserves (err e) k g w h = h

  pub bind-Preserves :
      {A B : Type 0} (m : M A) (k : A → M B)
      → Preserves P m
      → ((a : A) → Preserves P (k a))
      → Preserves P (m >>= k)
  bind-Preserves m k f g w h = continue-Preserves (m w).0 k g (m w).1 (f w h)

  pub command-Preserves :
      {A : Type 0} (x : Services) (f : Keyspace → A × Keyspace)
      → ((ks : Keyspace) → P (stock_of ks) → P (stock_of (f ks).1))
      → Preserves P (command x f)
  unfolding command
  command-Preserves {A} x f g w h =
      deliver-cases (λ (z : Result A × World). P (stock_of z.1.keyspace)) (x.fault w.place)
        (f w.keyspace).0 (f w.keyspace).1 _ h (g w.keyspace h) (g w.keyspace h)

  pub query-Preserves : {A : Type 0} (x : Services) (f : Keyspace → A) → Preserves P (query x f)
  unfolding query
  query-Preserves x f = command-Preserves x (λ ks. (f ks, ks)) (λ ks h. h)

  pub perform-Preserves :
      (x : Services) (f : Keyspace → Keyspace)
      → ((ks : Keyspace) → P (stock_of ks) → P (stock_of (f ks)))
      → Preserves P (perform x f)
  unfolding perform
  perform-Preserves x f g = command-Preserves x (λ ks. (tt, f ks)) g

  pub get_instance-Preserves : (x : Services) (id : String) → Preserves P (get_instance x id)
  unfolding get_instance
  get_instance-Preserves x id =
      bind-Preserves (query x (x.valkey.get (instance_key id))) (λ t. lift (decode t))
        (query-Preserves x (x.valkey.get (instance_key id))) (λ t w h. h)

  add_listed-Preserves :
      (r : Result Instance) (rest : M (List Instance))
      → Preserves P rest
      → Preserves P (add_listed r rest)
  add_listed-Preserves (ok i) rest f w h =
      bind-Preserves rest (λ others. pure (i ∷ others)) f (λ others w h. h) w h
  add_listed-Preserves (err instance_not_found) rest f w h = f w h
  add_listed-Preserves (err pool_exhausted) rest f w h = h
  add_listed-Preserves (err no_ports_available) rest f w h = h
  add_listed-Preserves (err route_creation_failed) rest f w h = h
  add_listed-Preserves (err route_not_found) rest f w h = h
  add_listed-Preserves (err failure) rest f w h = h
  add_listed-Preserves (err (max_ttl_exceeded t)) rest f w h = h

  module _ (x : Services) where
    get_all-Preserves : (ids : List String) → Preserves P (get_all x ids)
    unfolding get_all
    get_all-Preserves [] w h = h
    get_all-Preserves (id ∷ ids) w h =
        bind-Preserves (attempt (get_instance x id)) (λ found. add_listed found (get_all x ids))
          (get_instance-Preserves x id)
          (λ found. add_listed-Preserves found (get_all x ids) (get_all-Preserves ids)) w h

    pub list_by_state-Preserves : (state : InstanceState) → Preserves P (list_by_state x state)
    unfolding list_by_state
    list_by_state-Preserves state =
        let members = x.valkey.smembers (state_set state) in
        bind-Preserves (query x members) (λ ids. get_all x ids) (query-Preserves x members)
          get_all-Preserves

    pub list_expired-Preserves : Preserves P (list_expired x)
    unfolding list_expired
    list_expired-Preserves =
        bind-Preserves (list_by_state x assigned)
          (λ candidates. now >>= λ t. pure (only_expired t candidates))
          (list_by_state-Preserves assigned) (λ found w h. h)

    pub get_instance_ttl-Preserves : (id : String) → Preserves P (get_instance_ttl x id)
    unfolding get_instance_ttl
    get_instance_ttl-Preserves id =
        bind-Preserves (get_instance x id) (λ i. now >>= λ t. pure (ttl_remaining t i))
          (get_instance-Preserves x id) (λ i w h. h)

    count_day :
        (ip : String) (daily : ℕ)
        → Preserves P (
            now >>= λ t. query x (x.valkey.get_count t (ratelimit_day ip)) >>= λ count.
            if leb daily (or_zero count) then pure false else pure true)
    count_day ip daily w =
        bind-Preserves (query x (x.valkey.get_count w.clock (ratelimit_day ip)))
          (λ count. if leb daily (or_zero count) then pure false else pure true)
          (query-Preserves x (x.valkey.get_count w.clock (ratelimit_day ip)))
          (λ count. answered (leb daily (or_zero count))) w
      where
        answered : (b : Bool) → Preserves P (if b then pure false else pure true)
        answered true w h = h
        answered false w h = h

    pub check_rate_limit-Preserves :
        (ip : String) (hourly daily : ℕ) → Preserves P (check_rate_limit x ip hourly daily)
    unfolding check_rate_limit
    check_rate_limit-Preserves ip hourly daily w =
        let k : M Bool = now >>= λ t. query x (x.valkey.get_count t (ratelimit_day ip)) >>= λ count.
        if leb daily (or_zero count) then pure false else pure true in
        bind-Preserves (query x (x.valkey.get_count w.clock (ratelimit_hour ip)))
          (λ count. if leb hourly (or_zero count) then pure false else k)
          (query-Preserves x (x.valkey.get_count w.clock (ratelimit_hour ip)))
          (λ count. answered (leb hourly (or_zero count)) k (count_day ip daily)) w
      where
        answered :
            (b : Bool) (k : M Bool) → Preserves P k → Preserves P (if b then pure false else k)
        answered true k f w h = h
        answered false k f w h = f w h
