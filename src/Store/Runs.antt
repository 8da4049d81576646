-- ===== src/Store/Runs.antt =====
-- Calls to a repository of store/repository.go, one after the other, and what callers are given.
pub mod Handed
pub mod Ports
use try_it_now.Base.{ℕ, String, inl, inr, sym, subst, Bool, true, false, List, [], ◌∷◌, ◌++◌, All}
use try_it_now.Domain.{Instance, InstanceState, failure}
use try_it_now.World.{World, Result, ok, err}
use try_it_now.Store.Contract.{Repository, Stock, OneOf, Finishes, Answers}

-- The calls that deal in instances and ports, made by any callers in this order.
pub data Call : Type 0 where
  save : Instance → Call
  look_up : String → Call
  delete : String → Call
  restate : String → InstanceState → Call
  acquire : Call
  add : Instance → Call
  withdraw : String → Call
  allocate : Call
  release : ℕ → Call

-- What a caller is given.
pub data Gift : Type 0 where
  instance_given : Instance → Gift
  port_given : ℕ → Gift

abbrev pub gifts : {A : Type 0} → (A → Gift) → Result A → List Gift
gifts give (ok a) = give a ∷ []
gifts give (err e) = []

unfoldable pub made : Repository → Call → World → List Gift × World
made r (save i) w = ([], (r.save_instance i w).1)
made r (look_up id) w = ([], (r.get_instance id w).1)
made r (delete id) w = ([], (r.delete_instance id w).1)
made r (restate id new) w = ([], (r.update_instance_state id new w).1)
made r acquire w = let (answer, w') = r.acquire_from_pool w in (gifts instance_given answer, w')
made r (add i) w = ([], (r.add_to_pool i w).1)
made r (withdraw id) w = ([], (r.remove_from_pool id w).1)
made r allocate w = let (answer, w') = r.allocate_port w in (gifts port_given answer, w')
made r (release p) w = ([], (r.release_port p w).1)

unfoldable pub run : Repository → List Call → World → List Gift × World
unfolding made
run r [] w = ([], w)
run r (c ∷ calls) w =
    let (given, w') = made r c w in let (later, last) = run r calls w' in (given ++ later, last)

abbrev pub one : Bool → ℕ
one true = 1
one false = 0

-- A call that ends in one of some stocks keeps what all of them have.
pub OneOf-All : (P : Stock → Type 0) (s : Stock) (ts : List Stock) → All P ts → OneOf s ts → P s
OneOf-All P s [] all among = absurd among
OneOf-All P s (t ∷ ts) (p, all) (inl e) = subst P (sym e) p
OneOf-All P s (t ∷ ts) (p, all) (inr among) = OneOf-All P s ts all among

pub Finishes-All :
    (P : Stock → Type 0) (partly : List Stock) (done : Stock) (z : Result (Unit {0}) × Stock)
    → P done
    → All P partly
    → Finishes partly done z
    → P z.1
Finishes-All P partly done (ok a, s) p all e = subst P (sym e) p
Finishes-All P partly done (err e, s) p all among = OneOf-All P s (done ∷ partly) (p, all) among

pub Answers-All :
    {A : Type 0} (P : Result A × Stock → Type 0) (before : Stock) (expected z : Result A × Stock)
    → P expected
    → P (err failure, before)
    → P (err failure, expected.1)
    → Answers before expected z
    → P z
Answers-All P before expected (r, s) p q u (inl (e, e')) = subst P (λ i. (sym e i, sym e' i)) p
Answers-All P before expected (r, s) p q u (inr (e, among)) =
    subst (λ r'. P (r', s)) (sym e)
      (OneOf-All (λ t. P (err failure, t)) s (before ∷ expected.1 ∷ []) (q, (u, tt)) among)
