-- ===== src/Store/Ttl/Bounds.antt =====
-- An extension stays within the maximum, and extends what is stored; setting an expiry is read back.
use try_it_now.Base.{
  ℕ, suc, ◌+◌, ◌-◌, ◌≤◌, ◌<◌, ◌≡◌, String, some, arith, ltb, str_eq, eq_iff, if◌then◌else◌, inl,
  inr,
}
use try_it_now.Domain.{Instance, second, ttl_remaining}
use try_it_now.Valkey.{Valkey, IsDocumented, Keyspace, json}
use try_it_now.Valkey.Documented.{documented, documented_lem}
use try_it_now.World.{Services, World, Result, ok, err, command, perform, query}
use try_it_now.World.Reliable.{IsReliable, reliable, reliable_lem}
use try_it_now.Store.Instances.Lookup.{stored}
use try_it_now.Store.Instances.Index.{Value-cases}
use try_it_now.Store.Instances.{get_instance}
use try_it_now.Store.Ttl.{
  ExtendReply, no_expiry, exceeds_max, new_expires_unix, extend_script, set_instance_ttl,
  get_instance_ttl, expiring_at,
}

-- The instance `i` with its expiry put off to the second `e`.
abbrev pub put_off : ℕ → Instance → Instance
put_off e i = record i { expires_at_unix = e }

-- What the script answers to a stored instance, by its expiry and the limits (all in seconds).
abbrev pub expected_reply : ℕ → ℕ → ℕ → ℕ → ExtendReply
expected_reply expires extension max_ttl now =
    if ltb 0 expires
    then if ltb max_ttl ((expires - now) + extension)
      then exceeds_max (expires - now)
      else new_expires_unix (expires + extension)
    else no_expiry

module _ (v : Valkey) (id : String) (extension max_ttl now : ℕ) (ks : Keyspace) where
  extend_bounded :
      (e : ℕ)
      → (extend_script (documented v) id extension max_ttl now ks).0 ≡ new_expires_unix e
      → (i : Instance) × (stored id ks ≡ some (json i))
        × (e ≡ i.expires_at_unix + extension)
        × (e ≤ now + max_ttl)
        × ((other : String)
            → stored other (extend_script (documented v) id extension max_ttl now ks).1
              ≡ (if str_eq id other then some (json (put_off e i)) else stored other ks))
  unfolding extend_script
  extend_bounded e h = elim (Value-cases (stored id ks)) [
    | inl s ↦ ground arith
    | inr (inl s) ↦ ground arith
    | inr (inr (i, s)) ↦ (i, s, ground arith, ground arith, λ other. ground arith)
  ]

  extend_refused :
      (remaining : ℕ)
      → (extend_script (documented v) id extension max_ttl now ks).0 ≡ exceeds_max remaining
      → (max_ttl < remaining + extension)
        × ((extend_script (documented v) id extension max_ttl now ks).1 ≡ ks)
  unfolding extend_script
  extend_refused remaining h = ground arith

-- An extension that the script grants puts off the expiry that is stored by just the extension, to
-- at most the maximum from now, and changes nothing else of this or any other instance.
pub extend_script_granted :
    (v : Valkey) (id : String) (extension max_ttl now : ℕ) (ks : Keyspace) (e : ℕ)
    → IsDocumented v
    → (extend_script v id extension max_ttl now ks).0 ≡ new_expires_unix e
    → (i : Instance) × (stored id ks ≡ some (json i))
      × (e ≡ i.expires_at_unix + extension)
      × (e ≤ now + max_ttl)
      × ((other : String)
          → stored other (extend_script v id extension max_ttl now ks).1
            ≡ (if str_eq id other then some (json (put_off e i)) else stored other ks))
extend_script_granted v id extension max_ttl now ks e d h =
    rw (documented_lem v d)
      (extend_bounded v id extension max_ttl now ks e (rw (documented_lem v d) at h))

-- An extension that the script refuses would have passed the maximum, and nothing is changed.
pub extend_script_refused :
    (v : Valkey) (id : String) (extension max_ttl now : ℕ) (ks : Keyspace) (remaining : ℕ)
    → IsDocumented v
    → (extend_script v id extension max_ttl now ks).0 ≡ exceeds_max remaining
    → (max_ttl < remaining + extension) × ((extend_script v id extension max_ttl now ks).1 ≡ ks)
extend_script_refused v id extension max_ttl now ks remaining d h =
    rw (documented_lem v d)
      (extend_refused v id extension max_ttl now ks remaining (rw (documented_lem v d) at h))

module _ (x : Services) (w : World) where
  set_reliable :
      (id : String) (ttl : ℕ) (i : Instance)
      → stored id w.keyspace ≡ some (json i)
      → ((set_instance_ttl (reliable x) id ttl w).0 ≡ ok tt)
        × (stored id (set_instance_ttl (reliable x) id ttl w).1.keyspace
            ≡ some (json (expiring_at (w.clock + x.elapsed w.place + ttl) i)))
  unfolding set_instance_ttl get_instance perform query command
  set_reliable id ttl i s = ground (arith, eq_iff id id)

  set_place :
      (id : String) (ttl : ℕ) (i : Instance)
      → stored id w.keyspace ≡ some (json i)
      → ((set_instance_ttl (reliable x) id ttl w).1.place ≡ suc (suc w.place))
        × ((set_instance_ttl (reliable x) id ttl w).1.clock
            ≡ w.clock + x.elapsed w.place + x.elapsed (suc w.place))
  unfolding set_instance_ttl get_instance perform query command
  set_place id ttl i s = ground arith

  get_reliable :
      (id : String) (i : Instance)
      → stored id w.keyspace ≡ some (json i)
      → (get_instance_ttl (reliable x) id w).0 ≡ ok (ttl_remaining (w.clock + x.elapsed w.place) i)
  unfolding get_instance_ttl get_instance query command
  get_reliable id i s = ground arith

-- What is left right after an expiry is set: never more than what was asked for, and less by at most
-- the rounding to seconds and the time that the two calls in between took.
abbrev pub Left : ℕ → ℕ → Result ℕ → Type 0
Left ttl spent (ok r) = (r ≤ ttl) × (ttl ≤ r + second + spent)
Left ttl spent (err e) = ⊥

Left-after :
    (t ttl spent : ℕ) (i : Instance)
    → second ≤ ttl
    → Left ttl spent (ok (ttl_remaining (t + spent) (expiring_at (t + ttl) i)))
unfolding ttl_remaining
Left-after t ttl spent i h = ground arith

-- Where no command is lost: after an expiry of at least a second is set for a stored instance, the
-- remaining time that is read next is never more than what was set, and less by at most a second
-- and the time that passed in between.
pub get_instance_ttl-set_instance_ttl :
    (x : Services) (w : World) (id : String) (ttl : ℕ) (i : Instance)
    → IsReliable x
    → stored id w.keyspace ≡ some (json i)
    → second ≤ ttl
    → Left ttl
        (x.elapsed (suc w.place) + x.elapsed (suc (suc w.place)))
        (get_instance_ttl x id (set_instance_ttl x id ttl w).1).0
get_instance_ttl-set_instance_ttl x w id ttl i r s h = rw (reliable_lem x r) (
    let after = (set_instance_ttl (reliable x) id ttl w).1 in
    let t = w.clock + x.elapsed w.place in
    let spent = x.elapsed (suc w.place) + x.elapsed (suc (suc w.place)) in
    let (place, clock) = set_place x w id ttl i s in
    let (_, kept) = set_reliable x w id ttl i s in
    let read : after.clock + x.elapsed after.place ≡ t + spent = rw (place, clock) (omega arith) in
    rw (get_reliable x after id (expiring_at (t + ttl) i) kept, read) (Left-after t ttl spent i h))
