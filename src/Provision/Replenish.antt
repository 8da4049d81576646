-- ===== src/Provision/Replenish.antt =====
-- TriggerReplenish ends, and fills the pool as far as the capacity allows and no further.
use Prim.Native.Nat.{max}
use mathlib.Core.List.{append-nil, append_assoc}
use try_it_now.Base.{
  ℕ, zero, suc, ◌-◌, ◌≤◌, ◌<◌, ◌≡◌, refl, ◌∙◌, sym, ap, subst, ◌+◌, ◌++◌, ◌⊎◌, String, List, Bool,
  true, false, Option, none, some, [], ◌∷◌, arith, length, length-append, inl, inr,
}
use try_it_now.Domain.{Error, assigned, warming}
use try_it_now.Domain.Stats.{PoolStats, replenishment_needed, available_capacity}
use try_it_now.Valkey.{IsDocumented, Keyspace, state_set}
use try_it_now.World.{Services, World, Result, Result-cases, ok, err, query, command}
use try_it_now.World.Reliable.{documented_services, documented_services_lem}
use try_it_now.Store.Totals.{get_pool_stats}
use try_it_now.Store.Queue.Fifo.{queued}
use try_it_now.Pool.{Config, stats}
use try_it_now.Provision.{provision_instance, provision_needed, replenish_round, trigger_replenish}
use try_it_now.Provision.Growth.{Grown, provision_instance-Grown}

-- What the statistics count.
unfoldable pub counted_stats : Config → Keyspace → PoolStats
counted_stats c ks = record {
  ready = length (queued ks);
  assigned = length (ks.sets (state_set assigned));
  warming = length (ks.sets (state_set warming));
  target = c.target_pool_size;
  capacity = c.max_pool_size;
}

stats_documented :
    (x : Services) (c : Config) (w : World) (s : PoolStats)
    → (stats (documented_services x) c w).0 ≡ ok s
    → s ≡ counted_stats c w.keyspace
unfolding stats get_pool_stats query command counted_stats
stats_documented x c w s h = ground arith

pub keyspace-stats : (x : Services) (c : Config) (w : World) → (stats x c w).1.keyspace ≡ w.keyspace
unfolding stats get_pool_stats query command
keyspace-stats x c w = ground arith

pub stats_lem :
    (x : Services) (c : Config) (w : World) (s : PoolStats)
    → IsDocumented x.valkey
    → (stats x c w).0 ≡ ok s
    → s ≡ counted_stats c w.keyspace
stats_lem x c w s d h = stats_documented x c w s (rw (documented_services_lem x d) at h)

-- How many more instances the pool is short of.
unfoldable pub shortage : Config → Keyspace → ℕ
shortage c ks = replenishment_needed (counted_stats c ks)

abbrev pub ready_count : Keyspace → ℕ
ready_count ks = length (queued ks)

pub ready_count-Grown :
    {before after : Keyspace} → Grown before after → ready_count after ≡ suc (ready_count before)
ready_count-Grown {before} {after} g =
    ap length g.at_end ∙ omega (arith, length-append (queued before) (g.added ∷ []))

-- One round: it goes on only after it has added to the queue where the pool was short, and it stops
-- in good order only where nothing is short.
pub data Round (c : Config) (before after : Keyspace) : Result Bool → Type 0 where
  added : 0 < shortage c before → Grown before after → Round c before after (ok true)
  filled : shortage c before ≡ 0 → after ≡ before → Round c before after (ok false)
  broken : (e : Error) → Round c before after (err e)

module _ (x : Services) (d : IsDocumented x.valkey) (c : Config) where
  needed_round :
      (n : ℕ) (before : Keyspace) (w : World)
      → n ≡ shortage c before
      → w.keyspace ≡ before
      → Round c before (provision_needed x c n w).1.keyspace (provision_needed x c n w).0
  needed_round zero before w short same = filled (sym short) same
  needed_round (suc n) before w short same = elim (Result-cases (provision_instance x c w).0) [
    | inl (_, done) ↦ rw done (
        added (omega arith) (
          subst (λ k. Grown k (provision_instance x c w).1.keyspace) same
            (provision_instance-Grown x c w d done)))
    | inr (e, failed) ↦ rw failed (broken e)
  ]

  pub round_lem :
      (w : World) → Round c w.keyspace (replenish_round x c w).1.keyspace (replenish_round x c w).0
  unfolding replenish_round shortage
  round_lem w = elim (Result-cases (stats x c w).0) [
    | inl (s, got) ↦
        rw (got, replenish_round)
          (needed_round (replenishment_needed s) w.keyspace (stats x c w).1
            (ap replenishment_needed (stats_lem x c w s d got)) (keyspace-stats x c w))
    | inr (e, failed) ↦ rw (failed, replenish_round) (broken e)
  ]

-- The target is reached by what is ready and what is warming, or the capacity by those and what is
-- assigned.
abbrev pub IsFull : Config → Keyspace → Type 0
IsFull c ks =
    (c.target_pool_size ≤ ready_count ks + length (ks.sets (state_set warming)))
    ⊎ (c.max_pool_size
        ≤ ready_count ks
          + length (ks.sets (state_set assigned))
          + length (ks.sets (state_set warming)))

shortage-IsFull : (c : Config) (ks : Keyspace) → shortage c ks ≡ 0 → IsFull c ks
unfolding shortage counted_stats replenishment_needed available_capacity
shortage-IsFull c ks h = ground arith

-- The queue is the one before with more at its end.
abbrev pub Extends : Keyspace → Keyspace → Type 0
Extends before after = (ids : List String) × (queued after ≡ queued before ++ ids)

-- What a run of the loop comes to: it ends, and if it reports no error then the pool is full, the
-- queue before is the first part of the queue, which has not been filled past the target.
abbrev pub Replenished : Config → Keyspace → Option (Result (Unit {0}) × World) → Type 0
Replenished c before none = ⊥
Replenished c before (some (err e, w)) = Unit
Replenished c before (some (ok _, w)) =
    IsFull c w.keyspace
    × Extends before w.keyspace
    × (ready_count w.keyspace ≤ max (ready_count before) c.target_pool_size)

pub below_target :
    (c : Config) (ks : Keyspace) → 0 < shortage c ks → ready_count ks < c.target_pool_size
unfolding shortage counted_stats replenishment_needed available_capacity
below_target c ks h = ground arith

Replenished-later :
    (c : Config) (before after : Keyspace) (r : Option (Result (Unit {0}) × World))
    → Grown before after
    → ready_count before < c.target_pool_size
    → Replenished c after r
    → Replenished c before r
Replenished-later c before after none g h p = p
Replenished-later c before after (some (err f, w)) g h p = tt
Replenished-later c before after (some (ok _, w)) g h (full, (ids, more), most) = (
  full,
  (
    g.added ∷ ids,
    more ∙ ap (λ q. q ++ ids) g.at_end ∙ append_assoc (queued before) (g.added ∷ []) ids,
  ),
  omega (arith, ready_count-Grown g),
)

module _ (x : Services) (d : IsDocumented x.valkey) (c : Config) where
  after_round :
      (fuel : ℕ) (w : World) (again : Result Bool) (after : Keyspace)
      → (replenish_round x c w).0 ≡ again
      → (replenish_round x c w).1.keyspace ≡ after
      → Round c w.keyspace after again
      → (Grown w.keyspace after
          → ready_count w.keyspace < c.target_pool_size
          → Replenished c after (trigger_replenish fuel x c (replenish_round x c w).1))
      → Replenished c w.keyspace (trigger_replenish (suc fuel) x c w)
  unfolding trigger_replenish
  after_round fuel w (ok true) after e _ (added short more) rest =
      rw (e, trigger_replenish)
        (Replenished-later c w.keyspace after (trigger_replenish fuel x c (replenish_round x c w).1)
          more (below_target c w.keyspace short) (rest more (below_target c w.keyspace short)))
  after_round fuel w (ok false) after e at (filled short same) rest =
      rw (e, trigger_replenish)
        (
          shortage-IsFull c (replenish_round x c w).1.keyspace
              (ap (shortage c) (at ∙ same) ∙ short),
          ([], ap queued (at ∙ same) ∙ sym (append-nil (queued w.keyspace))),
          ground (arith, at, same),
        )
  after_round fuel w (err f) after e _ (broken _) rest = rw (e, trigger_replenish) tt

  replenished :
      (fuel : ℕ) (w : World)
      → c.target_pool_size - ready_count w.keyspace < fuel
      → Replenished c w.keyspace (trigger_replenish fuel x c w)
  replenished zero w h = absurd (omega arith)
  replenished (suc fuel) w h =
      let w' = (replenish_round x c w).1 in
      after_round fuel w (replenish_round x c w).0 w'.keyspace refl refl (round_lem x d c w)
        (λ more below. replenished fuel w' (omega (arith, ready_count-Grown more)))

-- Whatever faults the commands meet and whatever the services answer, the loop ends within as many
-- rounds as the queue is short of the target, and one: if it reports no error, then what is ready and
-- warming reaches the target, or what is ready, assigned and warming reaches the capacity; the queue
-- is the one before with nothing or more identifiers at its end, so none has left it or changed its
-- place; and it is no longer than the target, or than it was.
pub trigger_replenish-Replenished :
    (x : Services) (c : Config) (fuel : ℕ) (w : World)
    → IsDocumented x.valkey
    → c.target_pool_size - ready_count w.keyspace < fuel
    → Replenished c w.keyspace (trigger_replenish fuel x c w)
trigger_replenish-Replenished x c fuel w d h = replenished x d c fuel w h
