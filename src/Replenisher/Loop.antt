-- ===== src/Replenisher/Loop.antt =====
-- The background loop as a whole, over whatever wakes it.
use Prim.Native.Nat.{max}
use try_it_now.Base.{ℕ, ◌≤◌, ◌<◌, Bool, true, false, Option, none, some, List, [], ◌∷◌, arith}
use try_it_now.Valkey.{IsDocumented}
use try_it_now.World.{Services, World}
use try_it_now.Pool.{Config, cleanup_expired}
use try_it_now.Provision.Replenish.{ready_count}
use try_it_now.Replenisher.{
  Wake, stop_asked, context_done, on_demand, tick, replenish, received, replenish_wakes,
  replenish_loop,
}
use try_it_now.Replenisher.Bounded.{EndsWithin, replenish_ends}
use try_it_now.Replenisher.Effects.{cleanup_expired_at_most}

-- What follows a run that ends.
goes_on :
    (most : ℕ) (r : Option World) (rest : World → Option World)
    → EndsWithin most r
    → ((w : World) → ready_count w.keyspace ≤ most → EndsWithin most (rest w))
    → EndsWithin most (elim r [ none ↦ none | some w ↦ rest w ])
goes_on most none rest ends later = ends
goes_on most (some w) rest ends later = later w ends

if_triggered :
    (most : ℕ) (pending : Bool) (calm woken : Option World)
    → EndsWithin most calm
    → EndsWithin most woken
    → EndsWithin most (elim pending [ false ↦ calm | true ↦ woken ])
if_triggered most false calm woken h k = h
if_triggered most true calm woken h k = k

module _ (x : Services) (d : IsDocumented x.valkey) (c : Config) (fuel most : ℕ) where
  wakes_end :
      (wakes : List Wake) (w : World)
      → c.target_pool_size < fuel
      → c.target_pool_size ≤ most
      → ready_count w.keyspace ≤ most
      → EndsWithin most (replenish_wakes fuel x c wakes w)
  unfolding replenish_wakes
  wakes_end [] w f t b = b
  wakes_end (stop_asked ∷ wakes) w f t b = b
  wakes_end (context_done ∷ wakes) w f t b = b
  wakes_end (on_demand ∷ wakes) w f t b =
      if_triggered most w.triggered (replenish_wakes fuel x c wakes w)
        (elim (replenish fuel x c (received w)) [
          | none ↦ none
          | some w' ↦ replenish_wakes fuel x c wakes w'
        ])
        (wakes_end wakes w f t b)
        (goes_on most (replenish fuel x c (received w)) (replenish_wakes fuel x c wakes)
          (replenish_ends x d c fuel most (received w) f t b) (λ w' b'. wakes_end wakes w' f t b'))
  wakes_end (tick ∷ wakes) w f t b =
      goes_on most (replenish fuel x c w)
        (λ w'. replenish_wakes fuel x c wakes (cleanup_expired x w').1)
        (replenish_ends x d c fuel most w f t b)
        (λ w' b'.
          let fewer = (cleanup_expired_at_most x d).at_most w' in
          wakes_end wakes (cleanup_expired x w').1 f t (omega (arith, fewer)))

-- Whatever wakes the loop, whatever faults its commands meet and whatever the services answer, each
-- replenishment and each clean-up ends, with fuel for one round more than the target, and the queue is
-- never longer at the end than the target, or than it was at the start.
pub replenish_loop-EndsWithin :
    (x : Services) (c : Config) (fuel : ℕ) (wakes : List Wake) (w : World)
    → IsDocumented x.valkey
    → c.target_pool_size < fuel
    → EndsWithin (max (ready_count w.keyspace) c.target_pool_size) (replenish_loop fuel x c wakes w)
unfolding replenish_loop
replenish_loop-EndsWithin x c fuel wakes w d f =
    let most = max (ready_count w.keyspace) c.target_pool_size in
    goes_on most (replenish fuel x c w) (replenish_wakes fuel x c wakes)
      (replenish_ends x d c fuel most w f (omega arith) (omega arith))
      (λ w' b. wakes_end x d c fuel most wakes w' f (omega arith) b)
