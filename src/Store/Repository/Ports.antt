-- ===== src/Store/Repository/Ports.antt =====
-- The calls on ports keep their promises.
use try_it_now.Base.{
  ℕ, ◌≡◌, inl, inr, refl, ap, ◌∙◌, true, Option, none, some, [], ◌∷◌, ◌==◌, remove, insert_all,
}
use try_it_now.Domain.{failure}
use try_it_now.Valkey.{IsDocumented, Keyspace, ports_available, ports_in_use, update, SpopOutcome}
use try_it_now.World.{Services, World, ok, err, perform}
use try_it_now.World.Reliable.{documented_services}
use try_it_now.Store.Ports.{allocate_port, release_port, track_port}
use try_it_now.Store.Ports.Exclusive.{contains-remove_port, contains-insert_port}
use try_it_now.Store.Contract.{
  Stock, take_port, mark_port, unmark_port, return_port, Finishes, Allocates, outcome,
}
use try_it_now.Store.Repository.{stock_of}
use try_it_now.Store.Repository.Rules.{command-then, command-last, perform-Finishes, then-Finishes}

stock_of-unmark :
    (p : ℕ) (ks : Keyspace)
    → stock_of (record ks {
      port_sets = update ks.port_sets ports_in_use (remove ◌==◌ p (ks.port_sets ports_in_use));
    })
      ≡ unmark_port p (stock_of ks)
stock_of-unmark p ks = λ i. record (stock_of ks) {
  in_use = λ q. contains-remove_port p q (ks.port_sets ports_in_use) i;
}

stock_of-take :
    (p : ℕ) (ks : Keyspace)
    → stock_of (record ks {
      port_sets =
          update ks.port_sets ports_available (remove ◌==◌ p (ks.port_sets ports_available));
    })
      ≡ take_port p (stock_of ks)
stock_of-take p ks = λ i. record (stock_of ks) {
  free = λ q. contains-remove_port p q (ks.port_sets ports_available) i;
}

stock_of-return :
    (p : ℕ) (ks : Keyspace)
    → stock_of (record ks {
      port_sets =
          update ks.port_sets ports_available
            (insert_all ◌==◌ (p ∷ []) (ks.port_sets ports_available));
    })
      ≡ return_port p (stock_of ks)
unfolding insert_all
stock_of-return p ks = λ i. record (stock_of ks) {
  free = λ q. contains-insert_port p q (ks.port_sets ports_available) i;
}

stock_of-mark :
    (p : ℕ) (ks : Keyspace)
    → stock_of (record ks {
      port_sets =
          update ks.port_sets ports_in_use (insert_all ◌==◌ (p ∷ []) (ks.port_sets ports_in_use));
    })
      ≡ mark_port p (stock_of ks)
unfolding insert_all
stock_of-mark p ks = λ i. record (stock_of ks) {
  in_use = λ q. contains-insert_port p q (ks.port_sets ports_in_use) i;
}

module _ (x : Services) (w : World) where
  abbrev y : Services
  y = documented_services x

  abbrev before : Stock
  before = stock_of w.keyspace

  pub release_documented :
      (p : ℕ)
      → Finishes
          (before ∷ unmark_port p before ∷ [])
          (return_port p (unmark_port p before))
          (outcome stock_of (release_port y p w))
  unfolding release_port
  release_documented p =
      let kept = before ∷ unmark_port p before ∷ [] in
      let done = return_port p (unmark_port p before) in
      then-Finishes y kept done (y.valkey.port_srem ports_in_use p) _ w (inr (inl refl))
        (inr (inr (inl (stock_of-unmark p w.keyspace))))
        (λ w' e.
          perform-Finishes y kept done (y.valkey.port_sadd ports_available (p ∷ [])) w'
            (inr (inr (inl (e ∙ stock_of-unmark p w.keyspace))))
            (stock_of-return p w'.keyspace ∙ ap (return_port p) (e ∙ stock_of-unmark p w.keyspace)))

-- What the reply of SPOP says of the ports.
Spopped : Keyspace → Option ℕ × Keyspace → Type 0
Spopped ks (none, after) = stock_of after ≡ stock_of ks
Spopped ks (some p, after) =
    ((stock_of ks).free p ≡ true) × (stock_of after ≡ take_port p (stock_of ks))

Spopped_lem :
    (ks : Keyspace) (o : Option ℕ × Keyspace) → SpopOutcome ports_available ks o → Spopped ks o
unfolding Spopped
Spopped_lem ks (none, after) (empty, e) = ap stock_of e
Spopped_lem ks (some p, after) (member, e) = (member, ap stock_of e ∙ stock_of-take p ks)

module _ (x : Services) (w : World) where
  allocate_failed :
      (o : Option ℕ × Keyspace)
      → Spopped w.keyspace o
      → Allocates (stock_of w.keyspace) (err failure, stock_of o.1)
  unfolding Spopped
  allocate_failed (none, after) s = inl s
  allocate_failed (some p, after) (member, s) = inr (p, member, inl s)

  allocate_tracked :
      (o : Option ℕ × Keyspace) (w' : World)
      → Spopped w.keyspace o
      → w'.keyspace ≡ o.1
      → Allocates
          (stock_of w.keyspace)
          (outcome stock_of (track_port (documented_services x) o.0 w'))
  unfolding Spopped perform
  allocate_tracked (none, after) w' s e = inl (ap stock_of e ∙ s)
  allocate_tracked (some p, after) w' (member, s) e =
      let marked : stock_of (record w'.keyspace {
        port_sets =
            update w'.keyspace.port_sets ports_in_use
              (insert_all ◌==◌ (p ∷ []) (w'.keyspace.port_sets ports_in_use));
      })
          ≡ mark_port p (take_port p (stock_of w.keyspace)) =
        stock_of-mark p w'.keyspace ∙ ap (mark_port p) (ap stock_of e ∙ s) in
      command-last (documented_services x) (Allocates (stock_of w.keyspace))
        (λ ks. (tt, (documented_services x).valkey.port_sadd ports_in_use (p ∷ []) ks)) (λ _. ok p)
        w' (inr (p, member, inl (ap stock_of e ∙ s))) (inr (p, member, inr (inl marked)))
        (member, marked)

  pub allocate_documented :
      IsDocumented x.valkey
      → Allocates (stock_of w.keyspace) (outcome stock_of (allocate_port (documented_services x) w))
  unfolding allocate_port
  allocate_documented d =
      let o = x.valkey.port_spop ports_available w.keyspace in
      let s = Spopped_lem w.keyspace o (d.port_spop_lem ports_available w.keyspace) in
      command-then (documented_services x) (Allocates (stock_of w.keyspace))
        (x.valkey.port_spop ports_available) (track_port (documented_services x)) w (inl refl)
        (allocate_failed o s) (λ w' e. allocate_tracked o w' s e)
