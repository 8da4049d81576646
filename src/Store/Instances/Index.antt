-- ===== src/Store/Instances/Index.antt =====
-- The state sets are an index of the stored instances.
use try_it_now.Base.{
  ℕ, ◌≡◌, ◌↔◌, String, Bool, true, false, Option, none, some, arith, str_eq, eq_iff, if◌then◌else◌,
  contains, ◌⊎◌, inl, inr, refl, Bool-cases, insert, remove, contains-insert, contains-remove, List,
}
use try_it_now.Domain.{Instance, InstanceState, state_eq, warming, ready, assigned, expired}
use try_it_now.Valkey.{Valkey, IsDocumented, Keyspace, Value, json, malformed, state_set}
use try_it_now.Valkey.Documented.{documented, documented_lem}
use try_it_now.Store.Instances.{move_state, update_state_script}
use try_it_now.Store.Instances.Lookup.{stored}

-- Whether the text is that of an instance in the state.
abbrev pub holds_state : InstanceState → Option Value → Bool
holds_state state none = false
holds_state state (some malformed) = false
holds_state state (some (json i)) = state_eq i.state state

-- The set of each state holds the identifiers of the instances that are stored in it.
abbrev pub IsIndexed : Keyspace → Type 0
IsIndexed ks =
    (id : String) (state : InstanceState)
    → contains str_eq id (ks.sets (state_set state)) ≡ holds_state state (stored id ks)

-- A text to decode, or none.
pub Value-cases :
    (t : Option Value) → (t ≡ none) ⊎ (t ≡ some malformed) ⊎ ((i : Instance) × (t ≡ some (json i)))
Value-cases none = inl refl
Value-cases (some malformed) = inr (inl refl)
Value-cases (some (json i)) = inr (inr (i, refl))

pub contains-insert_id :
    (a b : String) (xs : List String)
    → contains str_eq b (insert str_eq a xs) ≡ (if str_eq a b then true else contains str_eq b xs)
contains-insert_id = contains-insert str_eq eq_iff

pub contains-remove_id :
    (a b : String) (xs : List String)
    → contains str_eq b (remove str_eq a xs) ≡ (if str_eq a b then false else contains str_eq b xs)
contains-remove_id = contains-remove str_eq eq_iff

pub state_eq_iff : (a b : InstanceState) → (state_eq a b ≡ true) ↔ (a ≡ b)
state_eq_iff warming b = ground arith
state_eq_iff ready b = ground arith
state_eq_iff assigned b = ground arith
state_eq_iff expired b = ground arith

pub move_state-IsIndexed :
    (v : Valkey) (id : String) (i changed : Instance) (ks : Keyspace)
    → stored id ks ≡ some (json i)
    → IsIndexed ks
    → IsIndexed (move_state (documented v) id i.state changed ks)
unfolding move_state
move_state-IsIndexed v id i changed ks e h other state = ground (
  arith,
  h other state,
  h other i.state,
  h other changed.state,
  eq_iff id other,
  state_eq_iff i.state state,
  state_eq_iff changed.state state,
  state_eq_iff i.state changed.state,
  contains-remove_id id other (ks.sets (state_set i.state)),
  contains-insert_id id other (ks.sets (state_set changed.state)),
  contains-insert_id id other (remove str_eq id (ks.sets (state_set i.state))),
)

update_documented-IsIndexed :
    (v : Valkey) (new : InstanceState) (id : String) (at : ℕ) (ks : Keyspace)
    → IsIndexed ks
    → IsIndexed (update_state_script (documented v) new id at ks).1
unfolding update_state_script
update_documented-IsIndexed v new id at ks h = elim (Value-cases (stored id ks)) [
  | inl e ↦ rw (e, update_state_script) h
  | inr (inl e) ↦ rw (e, update_state_script) h
  | inr (inr (i, e)) ↦ elim (Bool-cases (state_eq i.state new)) [
    | inl same ↦ rw (e, same) h
    | inr other ↦ rw (e, other) (move_state-IsIndexed v id i _ ks e h)
  ]
]

-- A change of state by the script keeps the state sets an index of the stored instances, for every
-- instance, found or not, and every state.
pub update_state_script-IsIndexed :
    (v : Valkey) (new : InstanceState) (id : String) (at : ℕ) (ks : Keyspace)
    → IsDocumented v
    → IsIndexed ks
    → IsIndexed (update_state_script v new id at ks).1
update_state_script-IsIndexed v new id at ks d h =
    rw (documented_lem v d) (update_documented-IsIndexed v new id at ks h)
