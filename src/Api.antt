-- ===== src/Api.antt =====
-- internal/api: the handlers (handler.go) and the key check in front of them (middleware.go). A
-- handler's answer is its status, and the body's fields that carry meaning.
pub mod Stream
pub mod Guard
pub mod Trace
pub mod Answers
pub mod Events
use try_it_now.Base.{
  ℕ, zero, suc, ◌+◌, ◌*◌, ◌/◌, String, Bool, true, false, Option, none, some, List, [], ◌∷◌, ltb,
  leb, str_eq, ◌&&◌, if◌then◌else◌,
}
use try_it_now.Base.Int.{ℤ, truncate_div}
use try_it_now.Domain.{
  Instance, InstanceState, Error, pool_exhausted, instance_not_found, route_creation_failed,
  max_ttl_exceeded, second, url, admin_url, ttl_remaining, is_expired,
}
use try_it_now.Domain.Stats.{PoolStats}
use try_it_now.World.{Services, World, Result, ok, err, M, pure, fail, attempt, now, ◌>>=◌, ◌>>◌}
use try_it_now.Store.Instances.{get_instance, save_instance}
use try_it_now.Store.Ttl.{ExtendTtlResult, extend_instance_ttl_atomic}
use try_it_now.Store.Limits.{check_and_increment_rate_limit}
use try_it_now.Store.Totals.{ping}
use try_it_now.Pool
use try_it_now.Pool.{acquire, release, stats}

-- The settings that the handlers read.
pub record Config : Type 0 where
  pub pool : Pool.Config
  pub api_key : String
  pub requests_per_hour : ℕ
  pub requests_per_day : ℕ
  pub max_ttl : ℕ
  pub admin_path : String
  pub mode : String

pub data Code : Type 0 where
  rate_limit_error rate_limited pool_exhausted_code route_failed acquire_error : Code
  not_found get_error invalid_request max_ttl_exceeded_code extend_error release_error : Code
  stats_error unauthorized : Code

pub data Event : Type 0 where
  ttl : String → ℕ → InstanceState → Event
  expired_event : String → Event
  error_event reconnect : Event

pub data Body : Type 0 where
  acquire_response : String → String → String → Option ℕ → ℕ → Body
  instance_response : Instance → String → String → ℕ → Body
  extend_response : String → ℕ → ℤ → Body
  release_response : String → Body
  stats_response : PoolStats → Body
  stream : List Event → Body
  healthy_response : String → Body
  unhealthy_response : Body
  error_response : Code → Body

pub record Response : Type 0 where
  pub status : ℕ
  pub body : Body

abbrev pub reply : ℕ → Body → M Response
reply status body w = (ok (record { status = status; body = body }), w)

abbrev pub problem : ℕ → Code → M Response
problem status code = reply status (error_response code)

-- `int(d.Seconds())`
abbrev pub seconds : ℕ → ℕ
seconds d = d / second

abbrev pub health_reply : Config → Result (Unit {0}) → M Response
health_reply c (err e) = reply 503 unhealthy_response
health_reply c (ok _) = reply 200 (healthy_response c.mode)

unfoldable pub health : Services → Config → M Response
health x c = do up ← attempt (ping x); health_reply c up

-- The TTL is read only where the expiry is set.
abbrev pub acquired_ttl : ℕ → Instance → ℕ
acquired_ttl t i = elim i.expires_at [ none ↦ 0 | some e ↦ seconds (ttl_remaining t i) ]

abbrev pub acquire_reply : Services → Config → String → Result Instance → M Response
acquire_reply x c ip (err pool_exhausted) = problem 503 pool_exhausted_code
acquire_reply x c ip (err route_creation_failed) = problem 503 route_failed
acquire_reply x c ip (err e) = problem 500 acquire_error
acquire_reply x c ip (ok i) = do
  let owned = record i { user_ip = ip }
  attempt (save_instance x owned)
  t ← now
  reply 200 (
      acquire_response owned.id (url owned c.pool.base_domain)
        (admin_url owned c.pool.base_domain c.admin_path) owned.expires_at (acquired_ttl t owned))

abbrev pub acquire_allowed : Services → Config → String → Result Bool → M Response
acquire_allowed x c ip (err e) = problem 500 rate_limit_error
acquire_allowed x c ip (ok false) = problem 429 rate_limited
acquire_allowed x c ip (ok true) = do
  result ← attempt (acquire x c.pool)
  acquire_reply x c ip result

unfoldable pub acquire_demo : Services → Config → String → M Response
acquire_demo x c ip = do
  allowed ← attempt (check_and_increment_rate_limit x ip c.requests_per_hour c.requests_per_day)
  acquire_allowed x c ip allowed

abbrev pub lookup_problem : Error → M Response
lookup_problem instance_not_found = problem 404 not_found
lookup_problem e = problem 500 get_error

abbrev pub get_reply : Config → Result Instance → M Response
get_reply c (err e) = lookup_problem e
get_reply c (ok i) = do
  t ← now
  reply 200 (
      instance_response i (url i c.pool.base_domain) (admin_url i c.pool.base_domain c.admin_path)
        (seconds (ttl_remaining t i)))

unfoldable pub get_demo : Services → Config → String → M Response
get_demo x c id = do found ← attempt (get_instance x id); get_reply c found

abbrev pub extend_reply : String → Result ExtendTtlResult → M Response
extend_reply id (err instance_not_found) = problem 404 not_found
extend_reply id (err (max_ttl_exceeded remaining)) = problem 400 max_ttl_exceeded_code
extend_reply id (err e) = problem 500 extend_error
extend_reply id (ok r) =
    reply 200 (extend_response id r.new_expires_at (truncate_div r.remaining second))

-- The number in the request, `none` where the body is no such request: `required,min=1,max=60`.
unfoldable pub extend_demo : Services → Config → String → Option ℕ → M Response
extend_demo x c id none = problem 400 invalid_request
extend_demo x c id (some minutes) =
    let extend = do
      extended ← attempt (extend_instance_ttl_atomic x id (minutes * 60 * second) c.max_ttl)
      extend_reply id extended
    in if leb 1 minutes && leb minutes 60 then extend else problem 400 invalid_request

abbrev pub release_reply : String → Result (Unit {0}) → M Response
release_reply id (err e) = problem 500 release_error
release_reply id (ok _) = reply 200 (release_response id)

abbrev pub release_found : Services → String → Result Instance → M Response
release_found x id (err e) = lookup_problem e
release_found x id (ok _) = do released ← attempt (release x id); release_reply id released

unfoldable pub release_demo : Services → String → M Response
release_demo x id = do found ← attempt (get_instance x id); release_found x id found

abbrev pub stats_reply : Result PoolStats → M Response
stats_reply (err e) = problem 500 stats_error
stats_reply (ok s) = reply 200 (stats_response s)

unfoldable pub pool_stats : Services → Config → M Response
pool_stats x c = do result ← attempt (stats x c.pool); stats_reply result
