-- ===== src/Store/Ports/Effects.antt =====
-- What the port operations do where no command is lost, and what one lost command costs.
use try_it_now.Base.{
  ℕ, suc, ◌≡◌, true, false, some, arith, ◌==◌, insert_all, contains, Option-cases, inl, inr,
  if◌then◌else◌,
}
use try_it_now.Domain.{failure}
use try_it_now.Valkey.{IsDocumented, Keyspace, ports_available, ports_in_use, SpopOutcome}
use try_it_now.World.{Services, World, ok, err, command, perform, delivered, refused}
use try_it_now.World.Reliable.{
  documented_services, documented_services_lem, IsReliable, reliable, reliable_lem,
}
use try_it_now.Store.Ports.{allocate_port, release_port}
use try_it_now.Store.Ports.Exclusive.{
  is_available, is_in_use, contains-remove_port, contains-insert_port,
}

-- `p` has moved from the available ports to those in use, and no other port has moved.
pub record Moved (p : ℕ) (before after : Keyspace) : Type 0 where
  pub was_available : is_available p before ≡ true
  pub available : (q : ℕ) → is_available q after ≡ (if p == q then false else is_available q before)
  pub in_use : (q : ℕ) → is_in_use q after ≡ (if p == q then true else is_in_use q before)

module _ (x : Services) (r : IsReliable x) (w : World) where
  spop_law : SpopOutcome ports_available w.keyspace (x.valkey.port_spop ports_available w.keyspace)
  spop_law = r.documented_server.port_spop_lem ports_available w.keyspace

  allocate_moves :
      (p : ℕ) (w' : World)
      → allocate_port (reliable x) w ≡ (ok p, w')
      → Moved p w.keyspace w'.keyspace
  unfolding allocate_port command perform insert_all
  allocate_moves p w' h = elim (Option-cases (x.valkey.port_spop ports_available w.keyspace).0) [
    | inl e ↦ ground (arith, spop_law)
    | inr (q, e) ↦ record {
      was_available = ground (arith, spop_law);
      available = λ j.
          ground (arith, spop_law, contains-remove_port p j (w.keyspace.port_sets ports_available));
      in_use = λ j.
          ground (arith, spop_law, contains-insert_port p j (w.keyspace.port_sets ports_in_use));
    }
  ]

  allocate_finds :
      (p : ℕ)
      → is_available p w.keyspace ≡ true
      → (q : ℕ) × (w' : World) × (allocate_port (reliable x) w ≡ (ok q, w'))
  unfolding allocate_port command perform contains
  allocate_finds p h = elim (Option-cases (x.valkey.port_spop ports_available w.keyspace).0) [
    | inl e ↦ ground (arith, spop_law)
    | inr (q, e) ↦ (q, (allocate_port (reliable x) w).1, ground (arith, spop_law))
  ]

  release_restores :
      (p q : ℕ)
      → (is_available q (release_port (reliable x) p w).1.keyspace
          ≡ (if p == q then true else is_available q w.keyspace))
        × (is_in_use q (release_port (reliable x) p w).1.keyspace
            ≡ (if p == q then false else is_in_use q w.keyspace))
  unfolding release_port command perform insert_all
  release_restores p q = ground (
    arith,
    contains-insert_port p q (w.keyspace.port_sets ports_available),
    contains-remove_port p q (w.keyspace.port_sets ports_in_use),
  )

-- Where no command is lost: a successful allocation gives a port that was available; it is in use
-- afterwards and no longer available, and every other port stays where it was.
pub allocate_port-Moved :
    (x : Services) (w : World) (p : ℕ) (w' : World)
    → IsReliable x
    → allocate_port x w ≡ (ok p, w')
    → Moved p w.keyspace w'.keyspace
allocate_port-Moved x w p w' r h = allocate_moves x r w p w' (rw (reliable_lem x r) at h)

-- While a port is available an allocation succeeds, where no command is lost.
pub allocate_port_total :
    (x : Services) (w : World) (p : ℕ)
    → IsReliable x
    → is_available p w.keyspace ≡ true
    → (q : ℕ) × (w' : World) × (allocate_port x w ≡ (ok q, w'))
allocate_port_total x w p r h = rw (reliable_lem x r) (allocate_finds x r w p h)

-- A release makes the port available and no longer in use, and moves no other port.
pub release_port_lem :
    (x : Services) (w : World) (p q : ℕ)
    → IsReliable x
    → (is_available q (release_port x p w).1.keyspace
        ≡ (if p == q then true else is_available q w.keyspace))
      × (is_in_use q (release_port x p w).1.keyspace
          ≡ (if p == q then false else is_in_use q w.keyspace))
release_port_lem x w p q r = rw (reliable_lem x r) (release_restores x r w p q)

-- Where no command is lost: releasing the port just allocated brings back which ports are available
-- and which are in use, if it was not in use before.
pub release_port-allocate_port :
    (x : Services) (w : World) (p : ℕ) (w' : World) (q : ℕ)
    → IsReliable x
    → is_in_use p w.keyspace ≡ false
    → allocate_port x w ≡ (ok p, w')
    → (is_available q (release_port x p w').1.keyspace ≡ is_available q w.keyspace)
      × (is_in_use q (release_port x p w').1.keyspace ≡ is_in_use q w.keyspace)
release_port-allocate_port x w p w' q r fresh h =
    let moved = allocate_port-Moved x w p w' r h in
    ground
      (arith, moved.was_available, moved.available q, moved.in_use q, release_port_lem x w' p q r)

module _ (x : Services) (d : IsDocumented x.valkey) (w : World) where
  allocate_loses :
      (p : ℕ)
      → x.fault w.place ≡ delivered
      → x.fault (suc w.place) ≡ refused
      → (x.valkey.port_spop ports_available w.keyspace).0 ≡ some p
      → ((allocate_port (documented_services x) w).0 ≡ err failure)
        × (is_available p w.keyspace ≡ true)
        × (is_available p (allocate_port (documented_services x) w).1.keyspace ≡ false)
        × (is_in_use p (allocate_port (documented_services x) w).1.keyspace
            ≡ is_in_use p w.keyspace)
  unfolding allocate_port command perform
  allocate_loses p f g e = ground (
    arith,
    d.port_spop_lem ports_available w.keyspace,
    contains-remove_port p p (w.keyspace.port_sets ports_available),
  )

-- Where the command that marks a port as in use is refused, the allocation fails and the port that
-- was taken from the available ones is not put back: it is in neither set, unless it was in use
-- already.
pub allocate_port_leak :
    (x : Services) (w : World) (p : ℕ)
    → IsDocumented x.valkey
    → x.fault w.place ≡ delivered
    → x.fault (suc w.place) ≡ refused
    → (x.valkey.port_spop ports_available w.keyspace).0 ≡ some p
    → ((allocate_port x w).0 ≡ err failure)
      × (is_available p w.keyspace ≡ true)
      × (is_available p (allocate_port x w).1.keyspace ≡ false)
      × (is_in_use p (allocate_port x w).1.keyspace ≡ is_in_use p w.keyspace)
allocate_port_leak x w p d f g e = rw (documented_services_lem x d) (allocate_loses x d w p f g e)
