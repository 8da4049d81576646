-- ===== src/Store/Repository/Rules.antt =====
-- How a call on the Valkey server is proved to keep its promise: command by command, with what is
-- left where one is refused or its reply is lost.
use try_it_now.Base.{◌≡◌, inl, inr, refl, sym, ap, subst, List, ◌∷◌}
use try_it_now.Domain.{failure}
use try_it_now.Valkey.{Keyspace}
use try_it_now.World.{
  Services, World, Result, ok, err, M, Fault, delivered, refused, lost, deliver, advance, command,
  perform, lift, ◌>>=◌, ◌>>◌, continue,
}
use try_it_now.Store.Instances.{Reply}
use try_it_now.Store.Contract.{Stock, OneOf, Finishes, Answers, outcome}
use try_it_now.Store.Repository.{stock_of}

-- A command comes to one of three ends.
pub deliver-cases :
    {A : Type 0} (Q : Result A × World → Type 0) (fault : Fault) (a : A) (ks : Keyspace) (w : World)
    → Q (err failure, w)
    → Q (err failure, record w { keyspace = ks })
    → Q (ok a, record w { keyspace = ks })
    → Q (deliver fault (a, ks) w)
deliver-cases Q delivered a ks w p q r = r
deliver-cases Q refused a ks w p q r = p
deliver-cases Q lost a ks w p q r = q

module _ (x : Services) where
  -- The rule for a command before the rest of a call.
  pub command-then :
      {A B : Type 0} (Q : Result B × Stock → Type 0) (f : Keyspace → A × Keyspace) (k : A → M B)
      (w : World)
      → Q (err failure, stock_of w.keyspace)
      → Q (err failure, stock_of (f w.keyspace).1)
      → ((w' : World)
          → w'.keyspace ≡ (f w.keyspace).1
          → Q (outcome stock_of (k (f w.keyspace).0 w')))
      → Q (outcome stock_of ((command x f >>= k) w))
  unfolding command
  command-then {A} {B} Q f k w p q r =
      deliver-cases (λ (z : Result A × World). Q (outcome stock_of (continue z.0 k z.1)))
        (x.fault w.place) (f w.keyspace).0 (f w.keyspace).1 (advance x w) p q (r _ refl)

  -- The rule for the last command of a call.
  pub command-last :
      {A B : Type 0} (Q : Result B × Stock → Type 0) (f : Keyspace → A × Keyspace)
      (answer : A → Result B) (w : World)
      → Q (err failure, stock_of w.keyspace)
      → Q (err failure, stock_of (f w.keyspace).1)
      → Q (answer (f w.keyspace).0, stock_of (f w.keyspace).1)
      → Q (outcome stock_of ((command x f >>= λ a. lift (answer a)) w))
  command-last Q f answer w p q r =
      command-then Q f (λ a. lift (answer a)) w p q
        (λ w' e. subst (λ ks. Q (answer (f w.keyspace).0, stock_of ks)) (sym e) r)

  pub perform-last :
      (Q : Result (Unit {0}) × Stock → Type 0) (f : Keyspace → Keyspace) (w : World)
      → Q (err failure, stock_of w.keyspace)
      → Q (err failure, stock_of (f w.keyspace))
      → Q (ok tt, stock_of (f w.keyspace))
      → Q (outcome stock_of (perform x f w))
  unfolding perform command
  perform-last Q f w p q r =
      deliver-cases (λ (z : Result (Unit {0}) × World). Q (outcome stock_of z)) (x.fault w.place) tt
        (f w.keyspace) (advance x w) p q r

  -- The same for a call whose success leaves the stock `done`, and whose failure may leave others.
  pub perform-Finishes :
      (partly : List Stock) (done : Stock) (f : Keyspace → Keyspace) (w : World)
      → OneOf (stock_of w.keyspace) (done ∷ partly)
      → stock_of (f w.keyspace) ≡ done
      → Finishes partly done (outcome stock_of (perform x f w))
  perform-Finishes partly done f w before after =
      perform-last (Finishes partly done) f w before (inl after) after

  pub then-Finishes :
      (partly : List Stock) (done : Stock) (f : Keyspace → Keyspace) (k : M (Unit {0})) (w : World)
      → OneOf (stock_of w.keyspace) (done ∷ partly)
      → OneOf (stock_of (f w.keyspace)) (done ∷ partly)
      → ((w' : World)
          → stock_of w'.keyspace ≡ stock_of (f w.keyspace)
          → Finishes partly done (outcome stock_of (k w')))
      → Finishes partly done (outcome stock_of ((perform x f >> k) w))
  unfolding perform
  then-Finishes partly done f k w before after later =
      command-then (Finishes partly done) (λ ks. (tt, f ks)) (λ _. k) w before after
        (λ w' e. later w' (ap stock_of e))

  -- A call that goes on after another.
  pub after-Finishes :
      (partly : List Stock) (done : Stock) (k : M (Unit {0})) (r : Result (Unit {0}))
      (first : List Stock) (next : Stock) (w : World)
      → Finishes first next (outcome stock_of (r, w))
      → (OneOf (stock_of w.keyspace) (next ∷ first) → OneOf (stock_of w.keyspace) (done ∷ partly))
      → (stock_of w.keyspace ≡ next → Finishes partly done (outcome stock_of (k w)))
      → Finishes partly done (outcome stock_of (continue r (λ _. k) w))
  after-Finishes partly done k (ok a) first next w h among later = later h
  after-Finishes partly done k (err e) first next w h among later = among h

-- A script that answers and changes the stock as expected, in one command.
pub script-Answers :
    {A : Type 0} (x : Services) (w : World) (f : Keyspace → Reply × Keyspace)
    (answer : Reply → Result A) (expected : Result A × Stock)
    → answer (f w.keyspace).0 ≡ expected.0
    → stock_of (f w.keyspace).1 ≡ expected.1
    → Answers
        (stock_of w.keyspace)
        expected
        (outcome stock_of ((command x f >>= λ reply. lift (answer reply)) w))
script-Answers x w f answer expected e s =
    command-last x (Answers (stock_of w.keyspace) expected) f answer w (inr (refl, inl refl))
      (inr (refl, inr (inl s))) (inl (e, s))
