-- ===== src/Store/Repository/Expiry.antt =====
-- The calls that set or extend an expiry change at most the text of one instance.
use try_it_now.Base.{
  ℕ, ◌+◌, ◌-◌, ◌*◌, String, refl, ltb, Bool, true, false, Option, none, some, arith, if◌then◌else◌,
}
use try_it_now.Base.Int.{sub_ℕ}
use try_it_now.Domain.{Instance, second, unix}
use try_it_now.Valkey.{Keyspace, Value, json, malformed, instance_key}
use try_it_now.World.{Services, M, now, pure, command, perform, attempt, ◌>>=◌}
use try_it_now.World.Reliable.{documented_services}
use try_it_now.Store.Instances.{get_instance}
use try_it_now.Store.Ttl.{
  set_instance_ttl, extend_instance_ttl, extend_instance_ttl_atomic, extend_script, extend_decoded,
  extended, sync_expires_at_field, ExtendReply, ExtendTtlResult, not_found, no_expiry, raised,
  exceeds_max, new_expires_unix, expiring_at, extended_expiry,
}
use try_it_now.Store.Contract.{Stock, put, OnlyTextAt}
use try_it_now.Store.Repository.{stock_of}
use try_it_now.Store.Repository.Keeps.{
  Preserves, bind-Preserves, command-Preserves, perform-Preserves, get_instance-Preserves,
}

-- A text that is put changes that text alone.
put-OnlyTextAt :
    (id : String) (t : Option Value) (before s : Stock)
    → OnlyTextAt id before s
    → OnlyTextAt id before (put id t s)
put-OnlyTextAt id t before s h = record {
  others = λ j differ. ground (arith, differ, h.others j differ);
  same_listed = h.same_listed;
  same_queue = h.same_queue;
  same_free = h.same_free;
  same_in_use = h.same_in_use;
}

pub OnlyTextAt-refl : (id : String) (s : Stock) → OnlyTextAt id s s
OnlyTextAt-refl id s = record {
  others = λ j differ. refl;
  same_listed = refl;
  same_queue = refl;
  same_free = refl;
  same_in_use = refl;
}

module _ (x : Services) (id : String) (before : Stock) where
  abbrev z : Services
  z = documented_services x

  abbrev Only : Stock → Type 0
  Only s = OnlyTextAt id before s

  set-Preserves :
      (i : Instance) → Preserves Only (perform z (z.valkey.set (instance_key id) (json i)))
  set-Preserves i =
      perform-Preserves Only z (z.valkey.set (instance_key id) (json i))
        (λ ks h. put-OnlyTextAt id (some (json i)) before (stock_of ks) h)

  pub set_instance_ttl-Preserves : (ttl : ℕ) → Preserves Only (set_instance_ttl z id ttl)
  unfolding set_instance_ttl
  set_instance_ttl-Preserves ttl =
      bind-Preserves Only (get_instance z id)
        (λ i.
          now >>= λ t. perform z (z.valkey.set (instance_key id) (json (expiring_at (t + ttl) i))))
        (get_instance-Preserves Only z id) (λ i w. set-Preserves (expiring_at (w.clock + ttl) i) w)

  pub extend_instance_ttl-Preserves :
      (extension : ℕ) → Preserves Only (extend_instance_ttl z id extension)
  unfolding extend_instance_ttl
  extend_instance_ttl-Preserves extension =
      bind-Preserves Only (get_instance z id)
        (λ i. now >>= λ t.
          perform z
            (z.valkey.set (instance_key id) (json (expiring_at (extended_expiry t extension i) i))))
        (get_instance-Preserves Only z id)
        (λ i w. set-Preserves (expiring_at (extended_expiry w.clock extension i) i) w)

  sync-Preserves : (t : ℕ) → Preserves Only (sync_expires_at_field z id t)
  unfolding sync_expires_at_field
  sync-Preserves t =
      bind-Preserves Only (get_instance z id)
        (λ i. perform z (z.valkey.set (instance_key id) (json (expiring_at t i))))
        (get_instance-Preserves Only z id) (λ i. set-Preserves (expiring_at t i))

  extended-Preserves : (r : ExtendReply) → Preserves Only (extended z id r)
  extended-Preserves not_found w h = h
  extended-Preserves no_expiry w h = h
  extended-Preserves raised w h = h
  extended-Preserves (exceeds_max remaining) w h = h
  extended-Preserves (new_expires_unix e) w h =
      let told : M ExtendTtlResult = now >>= λ t.
      pure (record { new_expires_at = e * second; remaining = sub_ℕ (e * second) t }) in
      bind-Preserves Only (attempt (sync_expires_at_field z id (e * second))) (λ _. told)
        (sync-Preserves (e * second)) (λ _ w h. h) w h

  decoded-Preserves :
      (extension maximum t : ℕ) (text : Option Value) (ks : Keyspace)
      → Only (stock_of ks)
      → Only (stock_of (extend_decoded z.valkey id extension maximum t text ks).1)
  decoded-Preserves extension maximum t none ks h = h
  decoded-Preserves extension maximum t (some malformed) ks h = h
  decoded-Preserves extension maximum t (some (json i)) ks h =
      let written =
        put-OnlyTextAt id
          (some (json (record i { expires_at_unix = i.expires_at_unix + extension }))) before
          (stock_of ks) h in
      chosen (ltb 0 i.expires_at_unix)
        (if ltb maximum (i.expires_at_unix - t + extension)
          then (exceeds_max (i.expires_at_unix - t), ks)
          else (
            new_expires_unix (i.expires_at_unix + extension),
            z.valkey.set (instance_key id)
                (json (record i { expires_at_unix = i.expires_at_unix + extension })) ks,
          ))
        (no_expiry, ks)
        (chosen (ltb maximum (i.expires_at_unix - t + extension))
          (exceeds_max (i.expires_at_unix - t), ks)
          (
            new_expires_unix (i.expires_at_unix + extension),
            z.valkey.set (instance_key id)
                (json (record i { expires_at_unix = i.expires_at_unix + extension })) ks,
          )
          h written)
        h
    where
      chosen :
          (b : Bool) (p q : ExtendReply × Keyspace)
          → Only (stock_of p.1)
          → Only (stock_of q.1)
          → Only (stock_of (if b then p else q).1)
      chosen true p q h g = h
      chosen false p q h g = g

  pub extend_atomic-Preserves :
      (extension maximum : ℕ) → Preserves Only (extend_instance_ttl_atomic z id extension maximum)
  unfolding extend_instance_ttl_atomic extend_script
  extend_atomic-Preserves extension maximum w =
      let script = extend_script z.valkey id (unix extension) (unix maximum) (unix w.clock) in
      bind-Preserves Only (command z script) (λ reply. extended z id reply)
        (command-Preserves Only z script (λ ks h.
          decoded-Preserves (unix extension) (unix maximum) (unix w.clock)
            (ks.strings (instance_key id)) ks h))
        extended-Preserves w
