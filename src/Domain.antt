-- ===== src/Domain.antt =====
-- internal/domain: the instance, its lifetime, and the errors that callers tell apart.
-- A point in time is a number of nanoseconds since the Unix epoch; times before it are left out.
pub mod Lifetime
pub mod Stats
pub mod Threshold
use try_it_now.Base.{
  ℕ, zero, ◌-◌, ◌*◌, ◌/◌, String, Bool, true, false, Option, none, some, ltb, str_eq, if◌then◌else◌,
}
use Prim.Native.String.{◌++◌ as str_append}

pub data InstanceState : Type 0 where
  warming ready assigned expired : InstanceState

abbrev pub state_eq : InstanceState → InstanceState → Bool
state_eq warming warming = true
state_eq ready ready = true
state_eq assigned assigned = true
state_eq expired expired = true
state_eq _ _ = false

pub record Instance : Type 0 where
  pub id : String
  pub container_id : String
  pub hostname : String
  pub port : ℕ
  pub state : InstanceState
  pub db_prefix : String
  pub user_ip : String
  pub created_at : ℕ
  pub assigned_at : Option ℕ
  pub expires_at : Option ℕ
  -- In seconds; 0 where it is not set.
  pub expires_at_unix : ℕ

-- The sentinel that `errors.Is` finds in an error, wrapped by `%w` or not; `failure` is any other.
-- `max_ttl_exceeded` carries the `Remaining` of the result that is returned beside it.
pub data Error : Type 0 where
  pool_exhausted instance_not_found no_ports_available route_creation_failed : Error
  route_not_found failure : Error
  max_ttl_exceeded : ℕ → Error

abbrev pub second : ℕ
second = 1000000000

-- `t.Unix()`
abbrev pub unix : ℕ → ℕ
unix t = t / second

unfoldable pub url : Instance → String → String
url i base_domain = str_append "https://" (str_append i.hostname (str_append "." base_domain))

pub admin_url : Instance → String → String → String
unfolding url
admin_url i base_domain admin_path = str_append (url i base_domain) (str_append "/" admin_path)

-- At the time `now`.
unfoldable pub is_expired : ℕ → Instance → Bool
is_expired now i =
    if ltb 0 i.expires_at_unix
    then ltb i.expires_at_unix (unix now)
    else elim i.expires_at [ none ↦ false | some t ↦ ltb t now ]

-- The difference stops at 0, which is what the tests `remaining < 0` return.
unfoldable pub ttl_remaining : ℕ → Instance → ℕ
ttl_remaining now i =
    if ltb 0 i.expires_at_unix
    then i.expires_at_unix * second - now
    else elim i.expires_at [ none ↦ 0 | some t ↦ t - now ]
