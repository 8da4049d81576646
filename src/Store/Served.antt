-- ===== src/Store/Served.antt =====
-- What callers of the Valkey repository are given in a run of calls.
use try_it_now.Base.{ℕ, ◌+◌, ◌≤◌, String, List}
use try_it_now.Valkey.{IsDocumented}
use try_it_now.World.{Services, World}
use try_it_now.Store.Repository.{valkey_repository, stock_of}
use try_it_now.Store.Repository.Refines.{valkey_repository-IsRepository}
use try_it_now.Store.Runs.{Call, run, one}
use try_it_now.Store.Runs.Handed.{IsKeyed, times, times_handed, times_added, handed_at_most}
use try_it_now.Store.Runs.Ports.{times_given, times_released, given_at_most}

-- On a server that behaves as documented, where every instance is stored under its own identifier: in
-- any run of calls that save, look up, delete and restate instances, acquire, add and withdraw them,
-- and allocate and release ports, whatever commands are refused or lost, an instance is handed out at
-- most as often as its identifier was in the queue and was added; what is still in the queue at the
-- end is counted too.
pub handed_out_at_most :
    (x : Services) (id : String) (calls : List Call) (w : World)
    → IsDocumented x.valkey
    → IsKeyed (stock_of w.keyspace)
    → times_handed id (run (valkey_repository x) calls w).0
        + times id (stock_of (run (valkey_repository x) calls w).1.keyspace).queue
      ≤ times_added id calls + times id (stock_of w.keyspace).queue
handed_out_at_most x id calls w d keyed =
    handed_at_most (valkey_repository x) stock_of (valkey_repository-IsRepository x d) id calls w
      keyed

-- On a server that behaves as documented: in any run of calls that save, look up, delete and restate
-- instances, acquire, add and withdraw them, and allocate and release ports, whatever commands are
-- refused or lost, a port is given at most as often as it was released, and once more if it was free
-- at the start; if it is free at the end, once less.
pub ports_given_at_most :
    (x : Services) (p : ℕ) (calls : List Call) (w : World)
    → IsDocumented x.valkey
    → times_given p (run (valkey_repository x) calls w).0
        + one ((stock_of (run (valkey_repository x) calls w).1.keyspace).free p)
      ≤ times_released p calls + one ((stock_of w.keyspace).free p)
ports_given_at_most x p calls w d =
    given_at_most (valkey_repository x) stock_of (valkey_repository-IsRepository x d) p calls w
