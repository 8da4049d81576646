-- ===== src/Store/Queue/Fifo.antt =====
-- The ready pool is a queue: an instance is handed out in the order in which it was added, in the
-- assigned state, and to one caller only. The script is atomic, so the order of its runs covers
-- concurrent callers.
use Prim.Native.Nat.{min}
use try_it_now.Base.{
  ℕ, ◌≡◌, refl, String, some, List, [], ◌∷◌, ◌++◌, arith, str_eq, eq_iff, if◌then◌else◌, Bool-cases,
  length, inl, inr,
}
use try_it_now.Domain.{Instance, ready, assigned}
use try_it_now.Valkey.{Valkey, IsDocumented, Keyspace, json, malformed, pool_ready, update}
use try_it_now.Valkey.Documented.{documented, documented_lem}
use try_it_now.World.{Services, World, ok, command, perform}
use try_it_now.World.Reliable.{IsReliable, reliable, reliable_lem}
use try_it_now.Store.Instances.{Reply, nil, fail_script, text, move_state}
use try_it_now.Store.Instances.Lookup.{stored}
use try_it_now.Store.Instances.Index.{IsIndexed, move_state-IsIndexed, Value-cases}
use try_it_now.Store.Queue.{acquire_script, acquire_from_pool, add_to_pool}

abbrev pub queued : Keyspace → List String
queued ks = ks.lists pool_ready

-- Every one of the identifiers has its instance.
abbrev pub AllStored : List String → Keyspace → Type 0
AllStored [] ks = Unit {0}
AllStored (id ∷ ids) ks =
    ((i : Instance) × (stored id ks ≡ some (json i)) × (i.id ≡ id)) × AllStored ids ks

-- The instance as it is handed out.
abbrev pub taken : ℕ → Instance → Instance
taken at i = record i { state = assigned; assigned_at = some at }

module _ (v : Valkey) (at : ℕ) where
  acquire_head :
      (id : String) (rest : List String) (i : Instance) (ks : Keyspace)
      → queued ks ≡ id ∷ rest
      → stored id ks ≡ some (json i)
      → ((acquire_script (documented v) at ks).0 ≡ text (json (taken at i)))
        × (queued (acquire_script (documented v) at ks).1 ≡ rest)
        × ((other : String)
            → stored other (acquire_script (documented v) at ks).1
              ≡ (if str_eq id other then some (json (taken at i)) else stored other ks))
  unfolding acquire_script move_state
  acquire_head id rest i ks q s = (ground arith, ground arith, λ other. ground arith)

  acquire_empty :
      (ks : Keyspace)
      → queued ks ≡ []
      → ((acquire_script (documented v) at ks).0 ≡ nil)
        × (queued (acquire_script (documented v) at ks).1 ≡ [])
  unfolding acquire_script
  acquire_empty ks q = ground arith

  acquire_queue-IsIndexed :
      (ids : List String) (ks : Keyspace)
      → queued ks ≡ ids
      → IsIndexed ks
      → IsIndexed (acquire_script (documented v) at ks).1
  unfolding acquire_script
  acquire_queue-IsIndexed [] ks q h = rw (q, acquire_script) h
  acquire_queue-IsIndexed (id ∷ rest) ks q h = elim (Value-cases (stored id ks)) [
    | inl e ↦ rw (q, e, acquire_script) h
    | inr (inl e) ↦ rw (q, e, acquire_script) h
    | inr (inr (i, e)) ↦
        rw (q, e, acquire_script)
          (move_state-IsIndexed v id i (taken at i)
            (record ks { lists = update ks.lists pool_ready rest }) e h)
  ]

-- The identifier of the instance that a reply holds.
abbrev pub handed : Reply → List String → List String
handed nil ids = ids
handed fail_script ids = ids
handed (text malformed) ids = ids
handed (text (json i)) ids = i.id ∷ ids

-- The identifiers handed out by one run of the script for each of the times.
unfoldable pub hand_out : Valkey → List ℕ → Keyspace → List String × Keyspace
hand_out v [] ks = ([], ks)
hand_out v (at ∷ times) ks =
    let (reply, ks') = acquire_script v at ks in
    let (ids, last) = hand_out v times ks' in (handed reply ids, last)

AllStored-taken :
    (id : String) (i : Instance) (at : ℕ) (ids : List String) (ks ks' : Keyspace)
    → i.id ≡ id
    → ((other : String)
        → stored other ks'
          ≡ (if str_eq id other then some (json (taken at i)) else stored other ks))
    → AllStored ids ks
    → AllStored ids ks'
AllStored-taken id i at [] ks ks' e h a = tt
AllStored-taken id i at (j ∷ ids) ks ks' e h a = elim (Bool-cases (str_eq id j)) [
  | inl same ↦ (
    (taken at i, ground (arith, h j), ground (arith, eq_iff id j)),
    AllStored-taken id i at ids ks ks' e h a.1,
  )
  | inr other ↦
      ((a.0.0, ground (arith, h j, a.0.1), a.0.2), AllStored-taken id i at ids ks ks' e h a.1)
]

hand_out_queue :
    (v : Valkey) (times : List ℕ) (ids : List String) (ks : Keyspace)
    → queued ks ≡ ids
    → AllStored ids ks
    → ((hand_out (documented v) times ks).0 ++ queued (hand_out (documented v) times ks).1 ≡ ids)
      × (length (hand_out (documented v) times ks).0 ≡ min (length times) (length ids))
unfolding hand_out
hand_out_queue v [] ids ks q a = (q, omega arith)
hand_out_queue v (at ∷ times) [] ks q a =
    let (replied, left) = acquire_empty v at ks q in
    let ih = hand_out_queue v times [] (acquire_script (documented v) at ks).1 left tt in
    rw replied (ih.0, omega (arith, ih.1))
hand_out_queue v (at ∷ times) (id ∷ rest) ks q ((i, s, e), a) =
    let (replied, left, others) = acquire_head v at id rest i ks q s in
    let ih =
      hand_out_queue v times rest (acquire_script (documented v) at ks).1 left
        (AllStored-taken id i at rest ks _ e others a) in
    rw replied (cc (e, ih.0), omega (arith, ih.1))

-- Handing out keeps the state sets an index of the stored instances.
pub acquire_script-IsIndexed :
    (v : Valkey) (at : ℕ) (ks : Keyspace)
    → IsDocumented v
    → IsIndexed ks
    → IsIndexed (acquire_script v at ks).1
acquire_script-IsIndexed v at ks d h =
    rw (documented_lem v d) (acquire_queue-IsIndexed v at (queued ks) ks refl h)

-- If every queued identifier has its instance, any number of runs of the script hands out the queue
-- from its front, each identifier once and in order, as many as there are runs or identifiers; what
-- is left of the queue is the rest.
pub hand_out_prefix :
    (v : Valkey) (times : List ℕ) (ks : Keyspace)
    → IsDocumented v
    → AllStored (queued ks) ks
    → ((hand_out v times ks).0 ++ queued (hand_out v times ks).1 ≡ queued ks)
      × (length (hand_out v times ks).0 ≡ min (length times) (length (queued ks)))
hand_out_prefix v times ks d a =
    rw (documented_lem v d) (hand_out_queue v times (queued ks) ks refl a)

module _ (x : Services) (w : World) where
  acquire_reliable :
      (id : String) (rest : List String) (i : Instance)
      → queued w.keyspace ≡ id ∷ rest
      → stored id w.keyspace ≡ some (json i)
      → ((acquire_from_pool (reliable x) w).0 ≡ ok (taken w.clock i))
        × (queued (acquire_from_pool (reliable x) w).1.keyspace ≡ rest)
        × ((other : String)
            → stored other (acquire_from_pool (reliable x) w).1.keyspace ≡ (
                if str_eq id other then some (json (taken w.clock i)) else stored other w.keyspace))
  unfolding acquire_from_pool command move_state
  acquire_reliable id rest i q s = (ground arith, ground arith, λ other. ground arith)

  add_reliable :
      (i : Instance)
      → ((add_to_pool (reliable x) i w).0 ≡ ok tt)
        × (queued (add_to_pool (reliable x) i w).1.keyspace ≡ queued w.keyspace ++ i.id ∷ [])
        × ((other : String)
            → stored other (add_to_pool (reliable x) i w).1.keyspace ≡ (
                if str_eq i.id other
                then some (json (record i { state = ready }))
                else stored other w.keyspace))
  unfolding add_to_pool perform command
  add_reliable i = (refl, refl, λ other. ground arith)

-- Where no command is lost: if the instance at the front of the queue is stored, the caller gets
-- it, assigned at the time of the call, and so it is stored; the rest of the queue and every other
-- instance stay as they were.
pub acquire_from_pool_front :
    (x : Services) (w : World) (id : String) (rest : List String) (i : Instance)
    → IsReliable x
    → queued w.keyspace ≡ id ∷ rest
    → stored id w.keyspace ≡ some (json i)
    → ((acquire_from_pool x w).0 ≡ ok (taken w.clock i))
      × (queued (acquire_from_pool x w).1.keyspace ≡ rest)
      × ((other : String)
          → stored other (acquire_from_pool x w).1.keyspace
            ≡ (if str_eq id other then some (json (taken w.clock i)) else stored other w.keyspace))
acquire_from_pool_front x w id rest i r q s =
    rw (reliable_lem x r) (acquire_reliable x w id rest i q s)

-- Where no command is lost: an instance that is added goes to the back of the queue and is stored
-- as ready, and every other instance stays as it was.
pub add_to_pool_back :
    (x : Services) (w : World) (i : Instance)
    → IsReliable x
    → ((add_to_pool x i w).0 ≡ ok tt)
      × (queued (add_to_pool x i w).1.keyspace ≡ queued w.keyspace ++ i.id ∷ [])
      × ((other : String)
          → stored other (add_to_pool x i w).1.keyspace ≡ (
              if str_eq i.id other
              then some (json (record i { state = ready }))
              else stored other w.keyspace))
add_to_pool_back x w i r = rw (reliable_lem x r) (add_reliable x w i)
