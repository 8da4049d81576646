-- ===== src/Store/Instances/Lookup.antt =====
-- Saving, looking up and deleting an instance, where no command is lost.
use try_it_now.Base.{◌≡◌, ◌≢◌, String, Option, none, some, arith, str_eq, eq_iff, if◌then◌else◌}
use try_it_now.Domain.{Instance, instance_not_found}
use try_it_now.Valkey.{Keyspace, Value, json, malformed, instance_key}
use try_it_now.World.{Services, World, ok, err, command, query, perform}
use try_it_now.World.Reliable.{IsReliable, reliable, reliable_lem}
use try_it_now.Store.Instances.{save_instance, get_instance, delete_instance, decode}

abbrev pub stored : String → Keyspace → Option Value
stored id ks = ks.strings (instance_key id)

module _ (x : Services) (w : World) where
  get_reliable : (id : String) → (get_instance (reliable x) id w).0 ≡ decode (stored id w.keyspace)
  unfolding get_instance query command
  get_reliable id = ground arith

  get_keeps : (id : String) → (get_instance (reliable x) id w).1.keyspace ≡ w.keyspace
  unfolding get_instance query command
  get_keeps id = ground arith

  save_reliable :
      (i : Instance) (id : String)
      → stored id (save_instance (reliable x) i w).1.keyspace
        ≡ (if str_eq i.id id then some (json i) else stored id w.keyspace)
  unfolding save_instance perform command
  save_reliable i id = ground arith

  delete_reliable :
      (id other : String)
      → stored id w.keyspace ≢ some malformed
      → ((delete_instance (reliable x) id w).0 ≡ ok tt)
        × (stored other (delete_instance (reliable x) id w).1.keyspace
            ≡ (if str_eq id other then none else stored other w.keyspace))
  unfolding delete_instance perform query command
  delete_reliable id other h = ground (arith, eq_iff id other)

-- A lookup gives what is stored under the identifier and changes nothing.
pub get_instance_lem :
    (x : Services) (w : World) (id : String)
    → IsReliable x
    → ((get_instance x id w).0 ≡ decode (stored id w.keyspace))
      × ((get_instance x id w).1.keyspace ≡ w.keyspace)
get_instance_lem x w id r = rw (reliable_lem x r) (get_reliable x w id, get_keeps x w id)

-- Where no command is lost: after a save a lookup of the instance's identifier gives that instance,
-- and a lookup of any other identifier what it gave before.
pub get_instance-save_instance :
    (x : Services) (w : World) (i : Instance) (id : String)
    → IsReliable x
    → (get_instance x id (save_instance x i w).1).0
      ≡ (if str_eq i.id id then ok i else (get_instance x id w).0)
get_instance-save_instance x w i id r = rw (reliable_lem x r) (
    ground (
      arith,
      get_reliable x (save_instance (reliable x) i w).1 id,
      save_reliable x w i id,
      get_reliable x w id,
    ))

-- Where no command is lost: deleting an instance whose text is not malformed succeeds, found or
-- not; a lookup of it fails then, and a lookup of any other gives what it gave before.
pub get_instance-delete_instance :
    (x : Services) (w : World) (id other : String)
    → IsReliable x
    → stored id w.keyspace ≢ some malformed
    → ((delete_instance x id w).0 ≡ ok tt)
      × ((get_instance x other (delete_instance x id w).1).0
          ≡ (if str_eq id other then err instance_not_found else (get_instance x other w).0))
get_instance-delete_instance x w id other r h = rw (reliable_lem x r) (
    ground (
      arith,
      get_reliable x (delete_instance (reliable x) id w).1 other,
      delete_reliable x w id other h,
      get_reliable x w other,
    ))
