-- ===== src/Store/Ttl/Races.antt =====
-- Two things that an extension gets wrong: the copy that is written back after the script, and an
-- instance whose expiry lies in the past.
use try_it_now.Base.{ℕ, ◌+◌, ◌*◌, ◌≤◌, ◌<◌, ◌≡◌, ◌∙◌, String, true, some, arith, eq_iff}
use try_it_now.Domain.{Instance, second, unix, is_expired}
use try_it_now.Valkey.{Valkey, IsDocumented, Keyspace, json}
use try_it_now.Valkey.Documented.{documented, documented_lem}
use try_it_now.World.{Services, World, command, perform, query}
use try_it_now.World.Reliable.{IsReliable, reliable, reliable_lem}
use try_it_now.Store.Instances.Lookup.{stored}
use try_it_now.Store.Instances.{get_instance}
use try_it_now.Store.Ttl.{new_expires_unix, extend_script, sync_expires_at_field, expiring_at}
use try_it_now.Store.Ttl.Bounds.{put_off, extend_script_granted}

module _ (x : Services) (w : World) where
  sync_reliable :
      (id : String) (t : ℕ) (i : Instance)
      → stored id w.keyspace ≡ some (json i)
      → stored id (sync_expires_at_field (reliable x) id t w).1.keyspace
        ≡ some (json (expiring_at t i))
  unfolding sync_expires_at_field get_instance perform query command
  sync_reliable id t i s = ground (arith, eq_iff id id)

sync_lem :
    (x : Services)
    → IsReliable x
    → (w : World) (id : String) (t : ℕ) (i : Instance) → stored id w.keyspace ≡ some (json i)
    → stored id (sync_expires_at_field x id t w).1.keyspace ≡ some (json (expiring_at t i))
sync_lem x r w id t i s = rw (reliable_lem x r) (sync_reliable x w id t i s)

-- Where no command is lost: two requests extend one instance. The script grants the first, then the
-- second, and each then writes back the expiry that it was told, the second before the first: what
-- stays stored is the expiry of the first alone, which is earlier than the one that the second was
-- told.
pub sync_expires_at_field_race :
    (x : Services) (id : String) (first_by second_by max_ttl now a b : ℕ) (ks : Keyspace)
    (w : World)
    → IsReliable x
    → 0 < second_by
    → (extend_script x.valkey id first_by max_ttl now ks).0 ≡ new_expires_unix a
    → (extend_script x.valkey id second_by max_ttl now
        (extend_script x.valkey id first_by max_ttl now ks).1).0
      ≡ new_expires_unix b
    → w.keyspace
      ≡ (extend_script x.valkey id second_by max_ttl now
          (extend_script x.valkey id first_by max_ttl now ks).1).1
    → (i : Instance) × (stored id
          (sync_expires_at_field x id
            (a * second)
            (sync_expires_at_field x id (b * second) w).1).1.keyspace
        ≡ some (json i))
      × (i.expires_at_unix ≡ a)
      × (a < b)
sync_expires_at_field_race x id first_by second_by max_ttl now a b ks w r p g₁ g₂ e =
    let v = x.valkey in
    let d = r.documented_server in
    let ks₁ = (extend_script v id first_by max_ttl now ks).1 in
    let (i₁, s₁, a_is, _, others₁) = extend_script_granted v id first_by max_ttl now ks a d g₁ in
    let (i₂, s₂, b_is, _, others₂) = extend_script_granted v id second_by max_ttl now ks₁ b d g₂ in
    let now_stored : stored id w.keyspace ≡ some (json (put_off b i₂)) =
      rw e (others₂ id ∙ ground (arith, eq_iff id id)) in
    let w₂ = (sync_expires_at_field x id (b * second) w).1 in
    let once = sync_lem x r w id (b * second) (put_off b i₂) now_stored in
    let twice = sync_lem x r w₂ id (a * second) _ once in
    (
      expiring_at (a * second) (expiring_at (b * second) (put_off b i₂)),
      twice,
      omega arith,
      ground (arith, others₁ id, eq_iff id id),
    )

granted_in_vain :
    (v : Valkey) (id : String) (extension max_ttl t : ℕ) (ks : Keyspace) (i : Instance)
    → stored id ks ≡ some (json i)
    → 0 < i.expires_at_unix
    → i.expires_at_unix + extension < unix t
    → extension ≤ max_ttl
    → (extend_script (documented v) id extension max_ttl (unix t) ks).0
      ≡ new_expires_unix (i.expires_at_unix + extension)
unfolding extend_script
granted_in_vain v id extension max_ttl t ks i s p q m = ground arith

still_expired :
    (t extension : ℕ) (i : Instance)
    → 0 < i.expires_at_unix
    → i.expires_at_unix + extension < unix t
    → is_expired t (put_off (i.expires_at_unix + extension) i) ≡ true
unfolding is_expired
still_expired t extension i p q = ground arith

-- An instance that has an expiry in seconds and is past it by more than the extension, which is
-- within the maximum: the extension is granted, and the instance is still expired.
pub extend_script_in_vain :
    (v : Valkey) (id : String) (extension max_ttl t : ℕ) (ks : Keyspace) (i : Instance)
    → IsDocumented v
    → stored id ks ≡ some (json i)
    → 0 < i.expires_at_unix
    → i.expires_at_unix + extension < unix t
    → extension ≤ max_ttl
    → ((extend_script v id extension max_ttl (unix t) ks).0
        ≡ new_expires_unix (i.expires_at_unix + extension))
      × (is_expired t (put_off (i.expires_at_unix + extension) i) ≡ true)
extend_script_in_vain v id extension max_ttl t ks i d s p q m = (
  rw (documented_lem v d) (granted_in_vain v id extension max_ttl t ks i s p q m),
  still_expired t extension i p q,
)
