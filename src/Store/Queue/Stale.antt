-- ===== src/Store/Queue/Stale.antt =====
-- Deleting an instance that waits in the pool leaves its identifier in the queue.
use try_it_now.Base.{◌≡◌, String, none, List, [], ◌∷◌, ◌++◌, arith}
use try_it_now.Domain.{pool_exhausted}
use try_it_now.World.{Services, World, err, command, perform, query}
use try_it_now.World.Reliable.{IsReliable, reliable, reliable_lem}
use try_it_now.Store.Instances.{delete_instance}
use try_it_now.Store.Instances.Lookup.{stored}
use try_it_now.Store.Queue.{acquire_from_pool}
use try_it_now.Store.Queue.Fifo.{queued}

module _ (x : Services) (w : World) where
  delete_leaves :
      (id : String) → queued (delete_instance (reliable x) id w).1.keyspace ≡ queued w.keyspace
  unfolding delete_instance perform query command
  delete_leaves id = ground arith

  acquire_stale :
      (id : String) (rest : List String)
      → queued w.keyspace ≡ id ∷ rest
      → stored id w.keyspace ≡ none
      → ((acquire_from_pool (reliable x) w).0 ≡ err pool_exhausted)
        × (queued (acquire_from_pool (reliable x) w).1.keyspace ≡ rest ++ id ∷ [])
  unfolding acquire_from_pool command
  acquire_stale id rest q s = ground arith

-- With an identifier at the front whose instance is gone, the pool is reported as exhausted, however
-- many instances wait behind it, and the identifier goes to the back instead of leaving the queue.
pub acquire_from_pool_stale :
    (x : Services) (w : World) (id : String) (rest : List String)
    → IsReliable x
    → queued w.keyspace ≡ id ∷ rest
    → stored id w.keyspace ≡ none
    → ((acquire_from_pool x w).0 ≡ err pool_exhausted)
      × (queued (acquire_from_pool x w).1.keyspace ≡ rest ++ id ∷ [])
acquire_from_pool_stale x w id rest r q s = rw (reliable_lem x r) (acquire_stale x w id rest q s)

-- Deleting a stored instance never takes its identifier off the queue.
pub queued-delete_instance :
    (x : Services) (w : World) (id : String)
    → IsReliable x
    → queued (delete_instance x id w).1.keyspace ≡ queued w.keyspace
queued-delete_instance x w id r = rw (reliable_lem x r) (delete_leaves x w id)
