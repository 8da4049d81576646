-- ===== src/Store/Queue.antt =====
-- store/valkey.go: the ready pool, a list of identifiers served from its head.
pub mod Fifo
pub mod Stale
use try_it_now.Base.{ℕ, String, Bool, true, false, Option, none, some, List, [], ◌∷◌, if◌then◌else◌}
use try_it_now.Domain.{Instance, InstanceState, ready, assigned, Error, pool_exhausted, failure}
use try_it_now.Valkey.{
  Valkey, Keyspace, Value, json, malformed, instance_key, state_set, pool_ready,
}
use try_it_now.World.{
  Services, Result, ok, err, M, pure, fail, lift, now, command, perform, ◌>>=◌, ◌>>◌,
}
use try_it_now.Store.Instances.{Reply, nil, fail_script, text, save_instance, move_state}

-- acquireFromPoolScript, from the decoded text of the popped identifier on.
abbrev pub acquire_decoded : Valkey → ℕ → String → Option Value → Keyspace → Reply × Keyspace
acquire_decoded v at id none ks = (nil, v.rpush pool_ready id ks)
acquire_decoded v at id (some malformed) ks = (fail_script, ks)
acquire_decoded v at id (some (json i)) ks =
    let taken = record i { state = assigned; assigned_at = some at } in
    (text (json taken), move_state v id i.state taken ks)

abbrev pub acquire_popped : Valkey → ℕ → Option String × Keyspace → Reply × Keyspace
acquire_popped v at (none, ks) = (nil, ks)
acquire_popped v at (some id, ks) = acquire_decoded v at id (v.get (instance_key id) ks) ks

unfoldable pub acquire_script : Valkey → ℕ → Keyspace → Reply × Keyspace
acquire_script v at ks = acquire_popped v at (v.lpop pool_ready ks)

-- What AcquireFromPool makes of the reply.
abbrev pub acquired : Reply → Result Instance
acquired nil = err pool_exhausted
acquired fail_script = err failure
acquired (text (json i)) = ok i
acquired (text malformed) = err failure

unfoldable pub acquire_from_pool : Services → M Instance
unfolding acquire_script
acquire_from_pool x = do
  at ← now
  reply ← command x (acquire_script x.valkey at)
  lift (acquired reply)

unfoldable pub add_to_pool : Services → Instance → M (Unit {0})
unfolding save_instance
add_to_pool x i = do
  save_instance x (record i { state = ready })
  perform x (x.valkey.rpush pool_ready i.id)

unfoldable pub remove_from_pool : Services → String → M (Unit {0})
remove_from_pool x id = perform x (x.valkey.lrem_one pool_ready id)
