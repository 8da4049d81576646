-- ===== src/Store/Ports/Initial.antt =====
-- InitializePorts fills the available ports from the range, and only where there are none.
use try_it_now.Base.{
  ℕ, zero, suc, ◌+◌, ◌-◌, ◌≤◌, ◌<◌, ◌≡◌, refl, Bool, true, false, Option, none, some, List, [],
  arith, ◌&&◌, ◌||◌, ◌==◌, ltb, leb, insert_all, contains, length,
}
use try_it_now.Valkey.{Keyspace, ports_available, ports_contain}
use try_it_now.World.{Services, World, Result, ok, err, command, perform, query}
use try_it_now.World.Reliable.{IsReliable, reliable, reliable_lem}
use try_it_now.Store.Ports.{initialize_ports, port_range}
use try_it_now.Store.Ports.Exclusive.{is_available, is_in_use, contains-insert_port}

abbrev pub in_range : ℕ → ℕ → ℕ → Bool
in_range first last p = leb first p && leb p last

contains-insert_all_range :
    (first count p : ℕ) (xs : List ℕ)
    → ports_contain p (insert_all ◌==◌ (port_range first count) xs)
      ≡ ((leb first p && ltb p (first + count)) || ports_contain p xs)
unfolding insert_all port_range
contains-insert_all_range first zero p xs = ground arith
contains-insert_all_range first (suc count) p xs = ground (
  arith,
  contains-insert_port first p (insert_all ◌==◌ (port_range (suc first) count) xs),
  contains-insert_all_range (suc first) count p xs,
)

-- A call that comes to an end, without a panic and without an error, in a world that `P` holds of.
abbrev pub EndsWell : (Keyspace → Type 0) → Option (Result (Unit {0}) × World) → Type 0
EndsWell P none = ⊥
EndsWell P (some (err e, w)) = ⊥
EndsWell P (some (ok _, w)) = P w.keyspace

module _ (x : Services) (w : World) where
  initialize_empty :
      (first last p : ℕ)
      → first ≤ last
      → w.keyspace.port_sets ports_available ≡ []
      → EndsWell
          (λ ks.
            (is_available p ks ≡ in_range first last p) × (is_in_use p ks ≡ is_in_use p w.keyspace))
          (initialize_ports (reliable x) first last w)
  unfolding initialize_ports command perform query contains insert_all
  initialize_empty first last p h e =
      let count : suc last - first ≡ suc (last - first) = omega arith in
      let fits : ltb (suc last) first ≡ false = ground arith in
      rw (e, fits, count)
        (ground (arith, contains-insert_all_range first (suc (last - first)) p []))

  initialize_filled :
      (first last : ℕ)
      → 0 < length (w.keyspace.port_sets ports_available)
      → EndsWell (λ ks. ks ≡ w.keyspace) (initialize_ports (reliable x) first last w)
  unfolding initialize_ports command perform query
  initialize_filled first last h =
      let some_there : ltb 0 (length (w.keyspace.port_sets ports_available)) ≡ true =
        ground arith in
      rw some_there refl

-- Where no command is lost: with no port available and a range that is not empty, exactly its ports
-- are available afterwards, and none changes whether it is in use.
pub initialize_ports_empty :
    (x : Services) (w : World) (first last p : ℕ)
    → IsReliable x
    → first ≤ last
    → w.keyspace.port_sets ports_available ≡ []
    → EndsWell
        (λ ks.
          (is_available p ks ≡ in_range first last p) × (is_in_use p ks ≡ is_in_use p w.keyspace))
        (initialize_ports x first last w)
initialize_ports_empty x w first last p r h e =
    rw (reliable_lem x r) (initialize_empty x w first last p h e)

-- Where no command is lost: with any port available nothing changes.
pub initialize_ports_filled :
    (x : Services) (w : World) (first last : ℕ)
    → IsReliable x
    → 0 < length (w.keyspace.port_sets ports_available)
    → EndsWell (λ ks. ks ≡ w.keyspace) (initialize_ports x first last w)
initialize_ports_filled x w first last r h =
    rw (reliable_lem x r) (initialize_filled x w first last h)

EndsWell-weaker :
    (P Q : Keyspace → Type 0) (r : Option (Result (Unit {0}) × World))
    → ((ks : Keyspace) → P ks → Q ks)
    → EndsWell P r
    → EndsWell Q r
EndsWell-weaker P Q none f h = h
EndsWell-weaker P Q (some (err e, w)) f h = h
EndsWell-weaker P Q (some (ok _, w)) f h = f w.keyspace h

-- Where no command is lost: if no port is available when the server starts again, the start succeeds
-- and makes each port of the range that is in use available while it is still in use: two instances
-- may be given one port.
pub initialize_ports_reissues :
    (x : Services) (w : World) (first last p : ℕ)
    → IsReliable x
    → w.keyspace.port_sets ports_available ≡ []
    → first ≤ p
    → p ≤ last
    → is_in_use p w.keyspace ≡ true
    → EndsWell
        (λ ks. (is_available p ks && is_in_use p ks) ≡ true)
        (initialize_ports x first last w)
initialize_ports_reissues x w first last p r e f l u =
    EndsWell-weaker _ _ (initialize_ports x first last w) (λ ks found. ground (arith, found))
      (initialize_ports_empty x w first last p r (omega arith) e)
