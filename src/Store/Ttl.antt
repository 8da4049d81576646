-- ===== src/Store/Ttl.antt =====
-- store/valkey.go: the expiry of an instance, by SetInstanceTTL, GetInstanceTTL, ExtendInstanceTTL
-- and ExtendInstanceTTLAtomic with its script. Durations are nanoseconds.
pub mod Bounds
pub mod Races
use try_it_now.Base.{
  ℕ, ◌+◌, ◌-◌, ◌*◌, ◌/◌, String, Bool, true, false, Option, none, some, ltb, if◌then◌else◌,
}
use try_it_now.Base.Int.{ℤ, sub_ℕ}
use try_it_now.Domain.{
  Instance, Error, instance_not_found, failure, max_ttl_exceeded, second, unix, ttl_remaining,
}
use try_it_now.Valkey.{Valkey, Keyspace, Value, json, malformed, instance_key}
use try_it_now.World.{
  Services, Result, ok, err, M, pure, attempt, lift, now, command, perform, ◌>>=◌, ◌>>◌,
}
use try_it_now.Store.Instances.{get_instance}

-- Both fields of the expiry, at the time `t`.
abbrev pub expiring_at : ℕ → Instance → Instance
expiring_at t i = record i { expires_at = some t; expires_at_unix = unix t }

unfoldable pub set_instance_ttl : Services → String → ℕ → M (Unit {0})
unfolding get_instance
set_instance_ttl x id ttl = do
  i ← get_instance x id
  t ← now
  perform x (x.valkey.set (instance_key id) (json (expiring_at (t + ttl) i)))

unfoldable pub get_instance_ttl : Services → String → M ℕ
unfolding get_instance ttl_remaining
get_instance_ttl x id = do i ← get_instance x id; t ← now; pure (ttl_remaining t i)

-- The seconds where they are set, else the time, else the present.
abbrev pub extended_expiry : ℕ → ℕ → Instance → ℕ
extended_expiry t extension i =
    if ltb 0 i.expires_at_unix
    then i.expires_at_unix * second + extension
    else elim i.expires_at [ none ↦ t + extension | some e ↦ e + extension ]

unfoldable pub extend_instance_ttl : Services → String → ℕ → M (Unit {0})
unfolding get_instance
extend_instance_ttl x id extension = do
  i ← get_instance x id
  t ← now
  perform x (x.valkey.set (instance_key id) (json (expiring_at (extended_expiry t extension i) i)))

-- The reply of the script; numbers are seconds.
pub data ExtendReply : Type 0 where
  not_found no_expiry raised : ExtendReply
  exceeds_max new_expires_unix : ℕ → ExtendReply

-- `remaining` stops at 0, as the script's test makes it.
abbrev pub extend_decoded :
    Valkey → String → ℕ → ℕ → ℕ → Option Value → Keyspace → ExtendReply × Keyspace
extend_decoded v id extension max_ttl now_unix none ks = (not_found, ks)
extend_decoded v id extension max_ttl now_unix (some malformed) ks = (raised, ks)
extend_decoded v id extension max_ttl now_unix (some (json i)) ks =
    let remaining = i.expires_at_unix - now_unix in
    let extended = i.expires_at_unix + extension in
    if ltb 0 i.expires_at_unix
    then if ltb max_ttl (remaining + extension) then (exceeds_max remaining, ks) else (
      new_expires_unix extended,
      v.set (instance_key id) (json (record i { expires_at_unix = extended })) ks,
    )
    else (no_expiry, ks)

-- extendInstanceTTLAtomicScript
unfoldable pub extend_script : Valkey → String → ℕ → ℕ → ℕ → Keyspace → ExtendReply × Keyspace
extend_script v id extension max_ttl now_unix ks =
    extend_decoded v id extension max_ttl now_unix (v.get (instance_key id) ks) ks

pub record ExtendTtlResult : Type 0 where
  pub new_expires_at : ℕ
  -- `time.Until` may fall below zero.
  pub remaining : ℤ

-- The instance is read once more, and written back with the expiry at hand.
unfoldable pub sync_expires_at_field : Services → String → ℕ → M (Unit {0})
unfolding get_instance
sync_expires_at_field x id t = do
  i ← get_instance x id
  perform x (x.valkey.set (instance_key id) (json (expiring_at t i)))

abbrev pub extended : Services → String → ExtendReply → M ExtendTtlResult
extended x id not_found = lift (err instance_not_found)
extended x id no_expiry = lift (err failure)
extended x id raised = lift (err failure)
extended x id (exceeds_max remaining) = lift (err (max_ttl_exceeded (remaining * second)))
extended x id (new_expires_unix e) = do
  attempt (sync_expires_at_field x id (e * second))
  t ← now
  pure (record { new_expires_at = e * second; remaining = sub_ℕ (e * second) t })

unfoldable pub extend_instance_ttl_atomic : Services → String → ℕ → ℕ → M ExtendTtlResult
unfolding extend_script sync_expires_at_field
extend_instance_ttl_atomic x id extension max_ttl = do
  t ← now
  reply ← command x (extend_script x.valkey id (unix extension) (unix max_ttl) (unix t))
  extended x id reply
