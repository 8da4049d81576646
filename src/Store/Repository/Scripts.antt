-- ===== src/Store/Repository/Scripts.antt =====
-- The scripts that change a state or hand an instance out keep their promises (store/valkey.go).
use try_it_now.Base.{
  ℕ, String, ◌≡◌, refl, sym, ap, ◌∙◌, Option, none, some, List, [], ◌∷◌, Bool, true, false,
  if◌then◌else◌,
}
use try_it_now.Domain.{Instance, InstanceState, state_eq, assigned}
use try_it_now.Valkey.{
  Valkey, Keyspace, Value, json, malformed, instance_key, pool_ready, state_set, update, popped,
}
use try_it_now.Valkey.Documented.{documented}
use try_it_now.World.{Result}
use try_it_now.Store.Instances.{
  updated, update_state_decoded, move_state, first_assigned, Reply, text,
}
use try_it_now.Store.Queue.{acquire_popped, acquire_decoded, acquired}
use try_it_now.Store.Contract.{Stock, put, list_in, unlist, restate_text, hand_text, hand_front}
use try_it_now.Store.Repository.{stock_of}
use try_it_now.Store.Repository.Texts.{stock_of-list, stock_of-unlist}

module _ (v : Valkey) (at : ℕ) (ks : Keyspace) where
  stock_of-moved :
      (id : String) (i changed : Instance)
      → stock_of (move_state (documented v) id i.state changed ks)
        ≡ list_in changed.state id
            (put id (some (json changed)) (unlist id (some (json i)) (stock_of ks)))
  unfolding move_state
  stock_of-moved id i changed =
      stock_of-list changed.state id (
        (documented v).set (instance_key id) (json changed)
          ((documented v).srem (state_set i.state) id ks))
      ∙ ap (λ s. list_in changed.state id (put id (some (json changed)) s))
          (stock_of-unlist i id ks)

  replies-choice :
      (b : Bool) (p q : Reply × Keyspace) (p' q' : Result (Unit {0}) × Stock)
      → (updated p.0 ≡ p'.0) × (stock_of p.1 ≡ p'.1)
      → (updated q.0 ≡ q'.0) × (stock_of q.1 ≡ q'.1)
      → (updated (if b then p else q).0 ≡ (if b then p' else q').0)
        × (stock_of (if b then p else q).1 ≡ (if b then p' else q').1)
  replies-choice true p q p' q' h g = h
  replies-choice false p q p' q' h g = g

  pub restate_replies :
      (id : String) (new : InstanceState) (t : Option Value)
      → (updated (update_state_decoded (documented v) new id at t ks).0
          ≡ (restate_text id new at t (stock_of ks)).0)
        × (stock_of (update_state_decoded (documented v) new id at t ks).1
            ≡ (restate_text id new at t (stock_of ks)).1)
  unfolding move_state
  restate_replies id new none = (refl, refl)
  restate_replies id new (some malformed) = (refl, refl)
  restate_replies id new (some (json i)) =
      let changed = record i { state = new; assigned_at = first_assigned at new i.assigned_at } in
      replies-choice (state_eq i.state new) (text (json i), ks)
        (text (json changed), move_state (documented v) id i.state changed ks) _ _ (refl, refl)
        (refl, stock_of-moved id i changed)

  hand_text_replies :
      (id : String) (t : Option Value)
      → (acquired (acquire_decoded (documented v) at id t ks).0
          ≡ (hand_text at id t (stock_of ks)).0)
        × (stock_of (acquire_decoded (documented v) at id t ks).1
            ≡ (hand_text at id t (stock_of ks)).1)
  unfolding move_state
  hand_text_replies id none = (refl, refl)
  hand_text_replies id (some malformed) = (refl, refl)
  hand_text_replies id (some (json i)) =
      (refl, stock_of-moved id i (record i { state = assigned; assigned_at = some at }))

pub hand_replies :
    (v : Valkey) (at : ℕ) (ks : Keyspace) (l : List String)
    → ks.lists pool_ready ≡ l
    → let popping = record ks { lists = update ks.lists pool_ready (popped l).1 } in
      let expected = hand_front at l (stock_of ks) in
      let script = acquire_popped (documented v) at ((popped l).0, popping) in
      (acquired script.0 ≡ expected.0) × (stock_of script.1 ≡ expected.1)
hand_replies v at ks [] e = (refl, λ i. record (stock_of ks) { queue = sym e i })
hand_replies v at ks (id ∷ rest) e =
    hand_text_replies v at (record ks { lists = update ks.lists pool_ready rest }) id
      (ks.strings (instance_key id))
