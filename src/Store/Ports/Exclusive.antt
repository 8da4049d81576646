-- ===== src/Store/Ports/Exclusive.antt =====
-- No port is both available and in use.
use try_it_now.Base.{
  ℕ, ◌≡◌, Bool, true, false, List, arith, ◌&&◌, ◌==◌, ==_iff, remove, Option-cases, inl, inr,
  contains-remove, contains-insert, if◌then◌else◌, insert_all, insert,
}
use try_it_now.Valkey.{IsDocumented, Keyspace, ports_available, ports_in_use, ports_contain}
use try_it_now.World.{Services, World, command, perform}
use try_it_now.World.Reliable.{documented_services, documented_services_lem}
use try_it_now.Store.Ports.{allocate_port, release_port}

abbrev pub is_available : ℕ → Keyspace → Bool
is_available p ks = ports_contain p (ks.port_sets ports_available)

abbrev pub is_in_use : ℕ → Keyspace → Bool
is_in_use p ks = ports_contain p (ks.port_sets ports_in_use)

abbrev pub IsExclusive : Keyspace → Type 0
IsExclusive ks = (p : ℕ) → (is_available p ks && is_in_use p ks) ≡ false

pub contains-remove_port :
    (a b : ℕ) (xs : List ℕ)
    → ports_contain b (remove ◌==◌ a xs) ≡ (if a == b then false else ports_contain b xs)
contains-remove_port = contains-remove ◌==◌ ==_iff

pub contains-insert_port :
    (a b : ℕ) (xs : List ℕ)
    → ports_contain b (insert ◌==◌ a xs) ≡ (if a == b then true else ports_contain b xs)
contains-insert_port = contains-insert ◌==◌ ==_iff

module _ (x : Services) (d : IsDocumented x.valkey) (w : World) where
  allocate_documented :
      IsExclusive w.keyspace → IsExclusive (allocate_port (documented_services x) w).1.keyspace
  unfolding allocate_port command perform insert_all
  allocate_documented h p = elim (Option-cases (x.valkey.port_spop ports_available w.keyspace).0) [
    | inl e ↦ ground (arith, d.port_spop_lem ports_available w.keyspace, h p)
    | inr (q, e) ↦ ground (
      arith,
      d.port_spop_lem ports_available w.keyspace,
      h p,
      contains-remove_port q p (w.keyspace.port_sets ports_available),
      contains-insert_port q p (w.keyspace.port_sets ports_in_use),
    )
  ]

  release_documented :
      (port : ℕ)
      → IsExclusive w.keyspace
      → IsExclusive (release_port (documented_services x) port w).1.keyspace
  unfolding release_port command perform insert_all
  release_documented port h p = ground (
    arith,
    h p,
    contains-remove_port port p (w.keyspace.port_sets ports_in_use),
    contains-insert_port port p (w.keyspace.port_sets ports_available),
  )

-- Whatever faults the two commands of an allocation meet, no port is both available and in use
-- afterwards, if none was before.
pub allocate_port-IsExclusive :
    (x : Services) (w : World)
    → IsDocumented x.valkey
    → IsExclusive w.keyspace
    → IsExclusive (allocate_port x w).1.keyspace
allocate_port-IsExclusive x w d h = rw (documented_services_lem x d) (allocate_documented x d w h)

-- Whatever faults the two commands of a release meet, and whichever port is released, no port is both
-- available and in use afterwards, if none was before.
pub release_port-IsExclusive :
    (x : Services) (w : World) (port : ℕ)
    → IsDocumented x.valkey
    → IsExclusive w.keyspace
    → IsExclusive (release_port x port w).1.keyspace
release_port-IsExclusive x w port d h =
    rw (documented_services_lem x d) (release_documented x d w port h)
