-- ===== src/Store/Instances.antt =====
-- store/valkey.go: SaveInstance, GetInstance, DeleteInstance, UpdateInstanceState, ListByState and
-- ListExpired. A script runs inside the server: its commands meet no fault, and `fail_script` is an
-- error that it raises (`cjson.decode` on a malformed text), which undoes nothing.
pub mod Lookup
pub mod Index
use try_it_now.Base.{ℕ, String, Bool, true, false, Option, none, some, List, [], ◌∷◌, if◌then◌else◌}
use try_it_now.Domain.{
  Instance, InstanceState, state_eq, assigned, Error, instance_not_found, failure, is_expired,
}
use try_it_now.Valkey.{Valkey, Keyspace, Value, json, malformed, instance_key, state_set}
use try_it_now.World.{
  Services, Result, ok, err, M, pure, fail, attempt, lift, now, command, query, perform, ◌>>=◌,
  ◌>>◌,
}

unfoldable pub save_instance : Services → Instance → M (Unit {0})
save_instance x i = do
  perform x (x.valkey.set (instance_key i.id) (json i))
  perform x (x.valkey.sadd (state_set i.state) i.id)

-- json.Unmarshal
abbrev pub decode : Option Value → Result Instance
decode none = err instance_not_found
decode (some (json i)) = ok i
decode (some malformed) = err failure

unfoldable pub get_instance : Services → String → M Instance
get_instance x id = do text ← query x (x.valkey.get (instance_key id)); lift (decode text)

abbrev pub delete_found : Services → String → Result Instance → M (Unit {0})
delete_found x id (err instance_not_found) = pure tt
delete_found x id (err e) = fail e
delete_found x id (ok i) = do
  perform x (x.valkey.srem (state_set i.state) id)
  perform x (x.valkey.del (instance_key id))

unfoldable pub delete_instance : Services → String → M (Unit {0})
unfolding get_instance
delete_instance x id = do found ← attempt (get_instance x id); delete_found x id found

-- The reply of a script: nil, a text, or an error that it raised.
pub data Reply : Type 0 where
  nil fail_script : Reply
  text : Value → Reply

-- `instance.assigned_at == nil`
abbrev pub first_assigned : ℕ → InstanceState → Option ℕ → Option ℕ
first_assigned at assigned none = some at
first_assigned at new old = old

-- SREM, SET and SADD, as both scripts that change a state make them.
unfoldable pub move_state : Valkey → String → InstanceState → Instance → Keyspace → Keyspace
move_state v id old changed ks =
    v.sadd (state_set changed.state) id
      (v.set (instance_key id) (json changed) (v.srem (state_set old) id ks))

-- updateInstanceStateScript, from the decoded text on.
abbrev pub update_state_decoded :
    Valkey → InstanceState → String → ℕ → Option Value → Keyspace → Reply × Keyspace
update_state_decoded v new id at none ks = (nil, ks)
update_state_decoded v new id at (some malformed) ks = (fail_script, ks)
update_state_decoded v new id at (some (json i)) ks =
    let changed = record i { state = new; assigned_at = first_assigned at new i.assigned_at } in
    if state_eq i.state new
    then (text (json i), ks)
    else (text (json changed), move_state v id i.state changed ks)

unfoldable pub update_state_script :
    Valkey → InstanceState → String → ℕ → Keyspace → Reply × Keyspace
update_state_script v new id at ks =
    update_state_decoded v new id at (v.get (instance_key id) ks) ks

-- What UpdateInstanceState makes of the reply.
abbrev pub updated : Reply → Result (Unit {0})
updated nil = err instance_not_found
updated fail_script = err failure
updated (text t) = ok tt

unfoldable pub update_instance_state : Services → String → InstanceState → M (Unit {0})
unfolding update_state_script
update_instance_state x id state = do
  at ← now
  reply ← command x (update_state_script x.valkey state id at)
  lift (updated reply)

-- An identifier whose instance is gone by now is skipped.
abbrev pub add_listed : Result Instance → M (List Instance) → M (List Instance)
add_listed (err instance_not_found) rest = rest
add_listed (err e) rest = fail e
add_listed (ok i) rest = do others ← rest; pure (i ∷ others)

unfoldable pub get_all : Services → List String → M (List Instance)
unfolding get_instance
get_all x [] = pure []
get_all x (id ∷ ids) = do found ← attempt (get_instance x id); add_listed found (get_all x ids)

unfoldable pub list_by_state : Services → InstanceState → M (List Instance)
unfolding get_all
list_by_state x state = do ids ← query x (x.valkey.smembers (state_set state)); get_all x ids

-- Each instance is compared with the time of the whole loop, which makes no call.
unfoldable pub only_expired : ℕ → List Instance → List Instance
unfolding is_expired
only_expired t [] = []
only_expired t (i ∷ is) = let rest = only_expired t is in if is_expired t i then i ∷ rest else rest

unfoldable pub list_expired : Services → M (List Instance)
unfolding list_by_state only_expired
list_expired x = do candidates ← list_by_state x assigned; t ← now; pure (only_expired t candidates)
