-- ===== src/World.antt =====
-- What the code runs in: the services that it is handed, the state that it acts on, and Go's results.
--
-- Every call that leaves the process takes a number, its place in the order of such calls. The
-- services say for each place what becomes of the call (a request may be refused before it takes
-- effect, and a reply may be lost after it) and how long it takes; a theorem ranges over all of
-- them. The runtime, the route manager and the database are interfaces whose answers are theirs to
-- choose; the calls made to them are kept in a trace, oldest first.
pub mod Reliable
use try_it_now.Base.{
  ℕ, suc, ◌+◌, ◌≡◌, refl, ◌⊎◌, inl, inr, String, Bool, true, false, Option, none, some, List, [],
  ◌∷◌, ◌++◌,
}
use try_it_now.Domain.{Instance, Error, failure}
use try_it_now.Valkey.{Valkey, Keyspace}

pub data Fault : Type 0 where
  delivered refused lost : Fault

-- container.StartOptions and container.RestoreOptions, and the settings in them that vary.
pub record StartOptions : Type 0 where
  pub name : String
  pub hostname : String
  pub port : ℕ
  pub db_prefix : String

-- container.Runtime, as the pool uses it. `criu` is false where the runtime has no CRIU.
pub record Runtime : Type 0 where
  pub criu : Bool
  pub restore : ℕ → StartOptions → Option Instance
  pub start : ℕ → StartOptions → Option Instance
  pub stop : ℕ → String → Bool
  pub health_check : ℕ → String → Option Bool

-- proxy.Route
pub record Route : Type 0 where
  pub hostname : String
  pub upstream_url : String
  pub instance_id : String

-- proxy.RouteManager
pub record RouteManager : Type 0 where
  pub add_route : ℕ → Route → Bool
  pub remove_route : ℕ → String → Bool

-- database.PrestaShopDB
pub record Database : Type 0 where
  pub drop_prefixed_tables : ℕ → String → Bool
  pub update_domain : ℕ → String → String → Bool
  pub clear_caches : ℕ → String → Bool

pub record Services : Type 0 where
  pub valkey : Valkey
  pub fault : ℕ → Fault
  pub elapsed : ℕ → ℕ
  pub runtime : Runtime
  pub routes : RouteManager
  pub database : Option Database
  -- Whether a wait before the call is cut short, by the context or by a timer.
  pub interrupted : ℕ → Bool
  -- The n-th fresh UUID.
  pub uuid : ℕ → String

-- A call to the runtime, the route manager or the database, with what tells its success.
pub data Call : Type 0 where
  restored started : StartOptions → Bool → Call
  stopped : String → Bool → Call
  checked : String → Option Bool → Call
  route_added : Route → Bool → Call
  route_removed : String → Bool → Call
  tables_dropped : String → Bool → Call
  domain_updated caches_cleared : String → Bool → Call

pub record World : Type 0 where
  pub keyspace : Keyspace
  pub clock : ℕ
  pub place : ℕ
  pub trace : List Call
  -- `replenishCh` holds a trigger.
  pub triggered : Bool

pub data Result (A : Type 0) : Type 0 where
  ok : A → Result A
  err : Error → Result A

abbrev pub M : Type 0 → Type 0
M A = World → Result A × World

abbrev pub pure : {A : Type 0} → A → M A
pure a w = (ok a, w)

abbrev pub fail : {A : Type 0} → Error → M A
fail e w = (err e, w)

abbrev pub continue : {A B : Type 0} → Result A → (A → M B) → M B
continue (ok a) f w = f a w
continue (err e) f w = (err e, w)

infixl 5 ◌>>=◌ ◌>>◌
abbrev pub ◌>>=◌ : {A B : Type 0} → M A → (A → M B) → M B
◌>>=◌ m f w = let (r, w') = m w in continue r f w'

abbrev pub ◌>>◌ : {A B : Type 0} → M A → M B → M B
m >> k = m >>= λ _. k

-- `if err := m(); err != nil { … }`: the error is at hand, and the code goes on.
abbrev pub attempt : {A : Type 0} → M A → M (Result A)
attempt m w = let (r, w') = m w in (ok r, w')

abbrev pub lift : {A : Type 0} → Result A → M A
lift r w = (r, w)

-- time.Now()
abbrev pub now : M ℕ
now w = (ok w.clock, w)

-- One more call has been made.
abbrev pub advance : Services → World → World
advance x w = record w { clock = w.clock + x.elapsed w.place; place = suc w.place }

-- What a command to the server comes to.
abbrev pub deliver : {A : Type 0} → Fault → A × Keyspace → M A
deliver delivered (a, ks) w = (ok a, record w { keyspace = ks })
deliver refused (a, ks) w = (err failure, w)
deliver lost (a, ks) w = (err failure, record w { keyspace = ks })

-- client.Do
unfoldable pub command : {A : Type 0} → Services → (Keyspace → A × Keyspace) → M A
command x f w = deliver (x.fault w.place) (f w.keyspace) (advance x w)

-- A command that only reads.
unfoldable pub query : {A : Type 0} → Services → (Keyspace → A) → M A
unfolding command
query x f = command x (λ ks. (f ks, ks))

-- A command whose reply is not looked at.
unfoldable pub perform : Services → (Keyspace → Keyspace) → M (Unit {0})
unfolding command
perform x f = command x (λ ks. (tt, f ks))

-- A call to another service.
abbrev pub record_call : Services → Call → World → World
record_call x c w = record w {
  clock = w.clock + x.elapsed w.place;
  place = suc w.place;
  trace = w.trace ++ c ∷ [];
}

abbrev pub succeed : Bool → M (Unit {0})
succeed true w = (ok tt, w)
succeed false w = (err failure, w)

-- A call that fails with some error where the answer is `false`.
unfoldable pub external : Services → (Bool → Call) → (ℕ → Bool) → M (Unit {0})
external x c answer w = succeed (answer w.place) (record_call x (c (answer w.place)) w)

pub Result-cases :
    {A : Type 0} (r : Result A) → ((a : A) × (r ≡ ok a)) ⊎ ((e : Error) × (r ≡ err e))
Result-cases (ok a) = inl (a, refl)
Result-cases (err e) = inr (e, refl)
