-- ===== src/Store/Contract.antt =====
-- internal/store/repository.go: the interface of a repository, and what one promises about instances,
-- the ready queue and the ports, with no word of keys, sets and JSON. Any call may fail part of the
-- way, so the promise says which states a failure may leave.
use try_it_now.Base.{
  ℕ, String, ◌≡◌, ◌⊎◌, Bool, true, false, Option, none, some, List, [], ◌∷◌, ◌++◌, ◌&&◌, str_eq,
  ◌==◌, if◌then◌else◌, remove_first,
}
use try_it_now.Domain.{
  Instance, InstanceState, state_eq, ready, assigned, instance_not_found, pool_exhausted, failure,
}
use try_it_now.Domain.Stats.{PoolStats}
use try_it_now.Valkey.{Keyspace, Value, json, malformed}
use try_it_now.World.{World, Result, ok, err, M}
use try_it_now.Store.Instances.{first_assigned, decode}
use try_it_now.Store.Ttl.{ExtendTtlResult}

-- Repository
pub record Repository : Type 0 where
  pub save_instance : Instance → M (Unit {0})
  pub get_instance : String → M Instance
  pub delete_instance : String → M (Unit {0})
  pub update_instance_state : String → InstanceState → M (Unit {0})
  pub acquire_from_pool : M Instance
  pub add_to_pool : Instance → M (Unit {0})
  pub remove_from_pool : String → M (Unit {0})
  pub list_by_state : InstanceState → M (List Instance)
  pub list_expired : M (List Instance)
  pub set_instance_ttl : String → ℕ → M (Unit {0})
  pub get_instance_ttl : String → M ℕ
  pub extend_instance_ttl : String → ℕ → M (Unit {0})
  pub extend_instance_ttl_atomic : String → ℕ → ℕ → M ExtendTtlResult
  pub allocate_port : M ℕ
  pub release_port : ℕ → M (Unit {0})
  pub check_rate_limit : String → ℕ → ℕ → M Bool
  pub increment_rate_limit : String → M (Unit {0})
  pub check_and_increment_rate_limit : String → ℕ → ℕ → M Bool
  pub get_pool_stats : M PoolStats
  pub increment_counter : String → M (Unit {0})
  pub ping : M (Unit {0})

-- What a repository holds: a text for each identifier, the identifiers listed under each state, the
-- queue, and the ports.
pub record Stock : Type 0 where
  pub texts : String → Option Value
  pub listed : InstanceState → String → Bool
  pub queue : List String
  pub free : ℕ → Bool
  pub in_use : ℕ → Bool

pub Stock-ext :
    (s t : Stock)
    → ((id : String) → s.texts id ≡ t.texts id)
    → ((u : InstanceState) (id : String) → s.listed u id ≡ t.listed u id)
    → s.queue ≡ t.queue
    → ((p : ℕ) → s.free p ≡ t.free p)
    → ((p : ℕ) → s.in_use p ≡ t.in_use p)
    → s ≡ t
Stock-ext s t a l q f u = λ i. record {
  texts = λ id. a id i;
  listed = λ state id. l state id i;
  queue = q i;
  free = λ p. f p i;
  in_use = λ p. u p i;
}

-- The effects, each at once.
abbrev pub put : String → Option Value → Stock → Stock
put id text s = record s { texts = λ j. if str_eq id j then text else s.texts j }

abbrev pub list_in : InstanceState → String → Stock → Stock
list_in state id s = record s {
  listed = λ u j.
      if state_eq state u then (if str_eq id j then true else s.listed state j) else s.listed u j;
}

-- Whether the text is that of an instance in the state.
abbrev pub is_of : InstanceState → Option Value → Bool
is_of u none = false
is_of u (some malformed) = false
is_of u (some (json i)) = state_eq i.state u

-- The identifier of an instance with this text is no longer listed under its state.
abbrev pub unlist : String → Option Value → Stock → Stock
unlist id text s = record s {
  listed = λ u j. if is_of u text && str_eq id j then false else s.listed u j;
}

abbrev pub enqueue : String → Stock → Stock
enqueue id s = record s { queue = s.queue ++ id ∷ [] }

abbrev pub take_port : ℕ → Stock → Stock
take_port p s = record s { free = λ q. if p == q then false else s.free q }

abbrev pub mark_port : ℕ → Stock → Stock
mark_port p s = record s { in_use = λ q. if p == q then true else s.in_use q }

abbrev pub unmark_port : ℕ → Stock → Stock
unmark_port p s = record s { in_use = λ q. if p == q then false else s.in_use q }

abbrev pub return_port : ℕ → Stock → Stock
return_port p s = record s { free = λ q. if p == q then true else s.free q }

-- A change of an instance's state: the answer, and the stock, in which it is listed under the new
-- state and no longer under the old.
abbrev pub restate_text :
    String → InstanceState → ℕ → Option Value → Stock → Result (Unit {0}) × Stock
restate_text id new at none s = (err instance_not_found, s)
restate_text id new at (some malformed) s = (err failure, s)
restate_text id new at (some (json i)) s = if state_eq i.state new then (ok tt, s) else (
  ok tt,
  list_in new id (
      put id
        (some (json (record i { state = new; assigned_at = first_assigned at new i.assigned_at })))
        (unlist id (some (json i)) s)),
)

-- A hand-out of the front of the queue. An identifier without its instance goes to the back.
abbrev pub hand_text : ℕ → String → Option Value → Stock → Result Instance × Stock
hand_text at id none s = (err pool_exhausted, enqueue id s)
hand_text at id (some malformed) s = (err failure, s)
hand_text at id (some (json i)) s =
    let given = record i { state = assigned; assigned_at = some at } in
    (ok given, list_in assigned id (put id (some (json given)) (unlist id (some (json i)) s)))

abbrev pub hand_front : ℕ → List String → Stock → Result Instance × Stock
hand_front at [] s = (err pool_exhausted, s)
hand_front at (id ∷ rest) s = hand_text at id (s.texts id) (record s { queue = rest })

-- The stock is one of these.
abbrev pub OneOf : Stock → List Stock → Type 0
OneOf s [] = ⊥
OneOf s (t ∷ ts) = (s ≡ t) ⊎ OneOf s ts

-- A success leaves the last of the stocks, a failure any of them.
abbrev pub Finishes : List Stock → Stock → Result (Unit {0}) × Stock → Type 0
Finishes partly done (ok _, s) = s ≡ done
Finishes partly done (err e, s) = OneOf s (done ∷ partly)

-- One effect with an answer: it is made and answered, or it fails, made or not.
abbrev pub Answers : {A : Type 0} → Stock → Result A × Stock → Result A × Stock → Type 0
Answers before expected (r, s) =
    ((r ≡ expected.0) × (s ≡ expected.1)) ⊎ ((r ≡ err failure) × OneOf s (before ∷ expected.1 ∷ []))

-- A look-up that changes nothing.
abbrev pub Looks : {A : Type 0} → Stock → Result A → Result A × Stock → Type 0
Looks before expected (r, s) = ((r ≡ expected) ⊎ (r ≡ err failure)) × (s ≡ before)

-- The port that is allocated was free, and is in use afterwards. A failure has changed nothing, or
-- has taken a port that was free, and may have marked it.
abbrev pub Allocates : Stock → Result ℕ × Stock → Type 0
Allocates before (ok p, s) = (before.free p ≡ true) × (s ≡ mark_port p (take_port p before))
Allocates before (err e, s) =
    (s ≡ before)
    ⊎ ((p : ℕ) × (before.free p ≡ true)
        × OneOf s (take_port p before ∷ mark_port p (take_port p before) ∷ []))

-- A call that changes nothing of the stock.
abbrev pub Keeps : {A : Type 0} → (Keyspace → Stock) → M A → Type 0
Keeps view m = (w : World) → view (m w).1.keyspace ≡ view w.keyspace

-- The same but for the text of one instance.
pub record OnlyTextAt (id : String) (s t : Stock) : Type 0 where
  pub others : (j : String) → str_eq id j ≡ false → t.texts j ≡ s.texts j
  pub same_listed : t.listed ≡ s.listed
  pub same_queue : t.queue ≡ s.queue
  pub same_free : t.free ≡ s.free
  pub same_in_use : t.in_use ≡ s.in_use

-- A call that changes at most the text of one instance.
abbrev pub Rewrites : {A : Type 0} → (Keyspace → Stock) → String → M A → Type 0
Rewrites view id m = (w : World) → OnlyTextAt id (view w.keyspace) (view (m w).1.keyspace)

-- What a run answers, and the stock that it leaves.
abbrev pub outcome : {A : Type 0} → (Keyspace → Stock) → Result A × World → Result A × Stock
outcome view (r, w) = (r, view w.keyspace)

-- What the calls promise, for a view of what the server keeps.
pub record IsRepository (r : Repository) (view : Keyspace → Stock) : Type 0 where
  pub saves :
      (i : Instance) (w : World)
      → let text = put i.id (some (json i)) (view w.keyspace) in
        Finishes
          (view w.keyspace ∷ text ∷ [])
          (list_in i.state i.id text)
          (outcome view (r.save_instance i w))
  pub looks_up :
      (id : String) (w : World)
      → Looks
          (view w.keyspace)
          (decode ((view w.keyspace).texts id))
          (outcome view (r.get_instance id w))
  pub deletes :
      (id : String) (w : World)
      → let unlisted = unlist id ((view w.keyspace).texts id) (view w.keyspace) in
        Finishes
          (view w.keyspace ∷ unlisted ∷ [])
          (put id none unlisted)
          (outcome view (r.delete_instance id w))
  pub restates :
      (id : String) (new : InstanceState) (w : World)
      → Answers
          (view w.keyspace)
          (restate_text id new w.clock ((view w.keyspace).texts id) (view w.keyspace))
          (outcome view (r.update_instance_state id new w))
  pub hands_out :
      (w : World)
      → Answers
          (view w.keyspace)
          (hand_front w.clock (view w.keyspace).queue (view w.keyspace))
          (outcome view (r.acquire_from_pool w))
  pub adds :
      (i : Instance) (w : World)
      → let text = put i.id (some (json (record i { state = ready }))) (view w.keyspace) in
        let saved = list_in ready i.id text in
        Finishes
          (view w.keyspace ∷ text ∷ saved ∷ [])
          (enqueue i.id saved)
          (outcome view (r.add_to_pool i w))
  pub removes :
      (id : String) (w : World)
      → Finishes
          (view w.keyspace ∷ [])
          (record (view w.keyspace) { queue = remove_first str_eq id (view w.keyspace).queue })
          (outcome view (r.remove_from_pool id w))
  -- What deals in expiries changes at most the text of its instance.
  pub sets_ttl : (id : String) (ttl : ℕ) → Rewrites view id (r.set_instance_ttl id ttl)
  pub extends_ttl : (id : String) (by : ℕ) → Rewrites view id (r.extend_instance_ttl id by)
  pub extends_ttl_atomic :
      (id : String) (by maximum : ℕ) → Rewrites view id (r.extend_instance_ttl_atomic id by maximum)
  -- And these change nothing of the stock.
  pub reads_ttl : (id : String) → Keeps view (r.get_instance_ttl id)
  pub lists_state : (state : InstanceState) → Keeps view (r.list_by_state state)
  pub lists_expired : Keeps view r.list_expired
  pub checks_limit :
      (ip : String) (hourly daily : ℕ) → Keeps view (r.check_rate_limit ip hourly daily)
  pub counts_request : (ip : String) → Keeps view (r.increment_rate_limit ip)
  pub checks_and_counts :
      (ip : String) (hourly daily : ℕ)
      → Keeps view (r.check_and_increment_rate_limit ip hourly daily)
  pub counts_pool : Keeps view r.get_pool_stats
  pub increments : (key : String) → Keeps view (r.increment_counter key)
  pub pings : Keeps view r.ping
  pub allocates : (w : World) → Allocates (view w.keyspace) (outcome view (r.allocate_port w))
  pub releases :
      (p : ℕ) (w : World)
      → Finishes
          (view w.keyspace ∷ unmark_port p (view w.keyspace) ∷ [])
          (return_port p (unmark_port p (view w.keyspace)))
          (outcome view (r.release_port p w))
