-- ===== src/Replenisher.antt =====
-- internal/pool/impl.go: the background loop that keeps the pool filled (replenishLoop), and the
-- switch that starts and stops it (StartReplenisher, StopReplenisher).
pub mod Effects
pub mod Bounded
pub mod Loop
pub mod Switch
use try_it_now.Base.{ℕ, Bool, true, false, Option, none, some, List, [], ◌∷◌}
use try_it_now.World.{Services, World, Result, ok, err}
use try_it_now.Pool.{Config, cleanup_expired}
use try_it_now.Provision.{trigger_replenish}

-- What the select of the loop takes next: `stopCh` or the context, `replenishCh`, or the ticker.
pub data Wake : Type 0 where
  stop_asked context_done on_demand tick : Wake

-- TriggerReplenish whose error is only logged; `none` means that the fuel ran out.
abbrev pub world_of : Option (Result (Unit {0}) × World) → Option World
world_of none = none
world_of (some (r, w)) = some w

unfoldable pub replenish : ℕ → Services → Config → World → Option World
replenish fuel x c w = world_of (trigger_replenish fuel x c w)

-- A receive empties `replenishCh`.
abbrev pub received : World → World
received w = record w { triggered = false }

-- The loop, over what its select takes; where nothing more comes, it waits.
unfoldable pub replenish_wakes : ℕ → Services → Config → List Wake → World → Option World
unfolding replenish
replenish_wakes fuel x c [] w = some w
replenish_wakes fuel x c (stop_asked ∷ wakes) w = some w
replenish_wakes fuel x c (context_done ∷ wakes) w = some w
replenish_wakes fuel x c (on_demand ∷ wakes) w = elim w.triggered [
  | false ↦ replenish_wakes fuel x c wakes w
  | true ↦ elim (replenish fuel x c (received w)) [
    | none ↦ none
    | some w' ↦ replenish_wakes fuel x c wakes w'
  ]
]
replenish_wakes fuel x c (tick ∷ wakes) w = elim (replenish fuel x c w) [
  | none ↦ none
  | some w' ↦ replenish_wakes fuel x c wakes (cleanup_expired x w').1
]

-- replenishLoop: the pool is filled once before the first wait.
unfoldable pub replenish_loop : ℕ → Services → Config → List Wake → World → Option World
unfolding replenish_wakes
replenish_loop fuel x c wakes w = elim (replenish fuel x c w) [
  | none ↦ none
  | some w' ↦ replenish_wakes fuel x c wakes w'
]
