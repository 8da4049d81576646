-- ===== src/Container/Starts.antt =====
-- Starting and checking a container, over an engine that behaves as documented.
use try_it_now.Base.{
  ℕ, ◌≡◌, ◌≢◌, refl, sym, ap, ◌∙◌, String, Bool, true, false, Option, none, some, arith, str_eq,
  eq_iff, Bool-cases, Option-cases, inl, inr, List, [], ◌∷◌, ◌==◌, ==_iff,
}
use try_it_now.Domain.{Instance}
use try_it_now.World.{StartOptions, ok}
use try_it_now.Container.{
  Setup, Box, Boxes, Report, Inspected, inspected, not_inspected, inspection_failed, Engine,
  Network, checked_info, checked_port, container_info, check_container_health, inspect_container,
  health_check, created, create_and_start, new_instance, port_of, first_bindings,
}
use try_it_now.Container.Contract.{IsDocumented, Publishes, Started, Responds}

Publishes-port_of :
    (host_port : ℕ) (bindings : List (ℕ × List (Option ℕ)))
    → Publishes host_port bindings
    → port_of 80 (first_bindings bindings) ≡ some host_port
Publishes-port_of p [] h = absurd h
Publishes-port_of p ((port, []) ∷ rest) (inl (e, (others, bound))) = ground (arith, bound)
Publishes-port_of p ((port, []) ∷ rest) (inr (differs, later)) = Publishes-port_of p rest later
Publishes-port_of p ((port, b ∷ bs) ∷ rest) (inl (e, (others, bound))) =
    let same : b ≡ some p = ground (arith, bound) in
    let own : (port == 80) ≡ true = (==_iff port 80).1 e in rw (own, same) refl
Publishes-port_of p ((port, b ∷ bs) ∷ rest) (inr (differs, later)) =
    ground (arith, differs, ==_iff port 80, Publishes-port_of p rest later)

module _ {S : Type 0} (setup_of : S → Setup) (e : Engine S) (d : IsDocumented setup_of e)
    (net : Network) where
  created_lem :
      (n : ℕ) (o : StartOptions) (spec : S) (boxes : Boxes) (i : Instance) (id : String)
      → (e.create n spec boxes).0 ≡ some id
      → (created e net n o (some id, (e.create n spec boxes).1)).0 ≡ ok i
      → Started o i (setup_of spec) boxes (created e net n o (some id, (e.create n spec boxes).1)).1
  created_lem n o spec boxes i id made h =
      let (fresh, there, _) = d.create_makes n spec boxes id made in
      let boxes₁ = (e.create n spec boxes).1 in
      elim (Bool-cases (e.start n id boxes₁).0) [
        | inl up ↦
            let runs = d.start_runs n id boxes₁ _ there up in
            record {
              same_port = ground (arith, up, h);
              same_hostname = ground (arith, up, h);
              same_prefix = ground (arith, up, h);
              is_warming = ground (arith, up, h);
              was_new = ground (arith, up, h, fresh);
              runs = ground (arith, up, h, runs);
            }
        | inr down ↦ ground (arith, down, h)
      ]

  pub create_and_start-Started :
      (n : ℕ) (o : StartOptions) (spec : S) (boxes : Boxes) (i : Instance)
      → (create_and_start e net n o spec boxes).0 ≡ ok i
      → Started o i (setup_of spec) boxes (create_and_start e net n o spec boxes).1
  unfolding create_and_start
  create_and_start-Started n o spec boxes i h = elim (Option-cases (e.create n spec boxes).0) [
    | inl none_made ↦ ground (arith, none_made, h)
    | inr (id, made) ↦
        rw (made, create_and_start)
          (created_lem n o spec boxes i id made (rw (made, create_and_start) at h))
  ]

  created_keeps :
      (n : ℕ) (o : StartOptions) (spec : S) (boxes : Boxes) (id other : String)
      → (e.create n spec boxes).0 ≡ some id
      → boxes other ≢ none
      → (created e net n o (some id, (e.create n spec boxes).1)).1 other ≡ boxes other
  created_keeps n o spec boxes id other made there =
      let (fresh, _, only) = d.create_makes n spec boxes id made in
      let differ : str_eq id other ≡ false = ground (arith, fresh, there, eq_iff id other) in
      let boxes₁ = (e.create n spec boxes).1 in
      let boxes₂ = (e.start n id boxes₁).1 in
      elim (Bool-cases (e.start n id boxes₁).0) [
        | inl up ↦ ground (arith, up, d.start_only n id boxes₁ other differ, only other differ)
        | inr down ↦ ground (
          arith,
          down,
          d.remove_only n id boxes₂ other differ,
          d.start_only n id boxes₁ other differ,
          only other differ,
        )
      ]

  pub create_and_start_keeps :
      (n : ℕ) (o : StartOptions) (spec : S) (boxes : Boxes) (other : String)
      → boxes other ≢ none
      → (create_and_start e net n o spec boxes).1 other ≡ boxes other
  unfolding create_and_start
  create_and_start_keeps n o spec boxes other there =
      elim (Option-cases (e.create n spec boxes).0) [
        | inl none_made ↦ ground (arith, none_made, d.create_fails n spec boxes none_made)
        | inr (id, made) ↦
            rw (made, create_and_start) (created_keeps n o spec boxes id other made there)
      ]

  pub create_and_start_succeeds :
      (n : ℕ) (o : StartOptions) (spec : S) (boxes : Boxes) (id : String)
      → (e.create n spec boxes).0 ≡ some id
      → (e.start n id (e.create n spec boxes).1).0 ≡ true
      → (i : Instance) × ((create_and_start e net n o spec boxes).0 ≡ ok i)
  unfolding create_and_start
  create_and_start_succeeds n o spec boxes id made up =
      (new_instance net n id o, rw (made, up, create_and_start) refl)

  -- What a check that finds a container healthy has seen.
  abbrev pub Healthy : ℕ → String → Boxes → Type 0
  Healthy n id boxes =
      (b : Box) × (boxes id ≡ some b) × (b.running ≡ true) × Responds net n b.setup.published

  -- And one that does not.
  abbrev pub Unhealthy : ℕ → String → Boxes → Type 0
  Unhealthy n id boxes =
      (b : Box) → boxes id ≡ some b → b.running ≡ true → ¬ Responds net n b.setup.published

  responds_lem : (n port : ℕ) → check_container_health net n port ≡ true → Responds net n port
  unfolding check_container_health
  responds_lem n port h = elim (Option-cases (net.responds n port)) [
    | inl silent ↦ ground (arith, silent, h)
    | inr (status, answered) ↦ (
      ground (arith, h),
      (status, answered, ground (arith, answered, h), ground (arith, answered, h)),
    )
  ]

  healthy_lem : (n port : ℕ) → Responds net n port → check_container_health net n port ≡ true
  unfolding check_container_health
  healthy_lem n port (accepts, (status, answered, low, high)) =
      ground (arith, accepts, answered, low, high)

  reported-Healthy :
      (n : ℕ) (id : String) (boxes : Boxes) (r : Report)
      → e.inspect n id boxes ≡ inspected r
      → checked_info net n (container_info (inspected r)) ≡ ok true
      → Healthy n id boxes
  reported-Healthy n id boxes r seen h =
      let (b, there, status, published) = d.inspect_reports n id boxes r seen in
      let published_at : b.running ≡ true
          → port_of 80 (first_bindings r.port_bindings) ≡ some b.setup.published =
        λ runs. Publishes-port_of b.setup.published r.port_bindings (published runs) in
      elim (Bool-cases (str_eq r.status "running")) [
        | inl up ↦
            let runs : b.running ≡ true = ground (arith, up, status) in
            (
              b,
              there,
              runs,
              responds_lem n b.setup.published (ground (arith, up, published_at runs, h)),
            )
        | inr down ↦ ground (arith, down, h)
      ]

  reported-Unhealthy :
      (n : ℕ) (id : String) (boxes : Boxes) (r : Report)
      → e.inspect n id boxes ≡ inspected r
      → checked_info net n (container_info (inspected r)) ≡ ok false
      → Unhealthy n id boxes
  reported-Unhealthy n id boxes r seen h b' there' runs' responds =
      let (b, there, status, published) = d.inspect_reports n id boxes r seen in
      let published_at : b.running ≡ true
          → port_of 80 (first_bindings r.port_bindings) ≡ some b.setup.published =
        λ runs. Publishes-port_of b.setup.published r.port_bindings (published runs) in
      let same : b ≡ b' = some_injective (sym there ∙ there') in
      let runs : b.running ≡ true = rw same runs' in
      let up : str_eq r.status "running" ≡ true = status ∙ runs in
      let well : check_container_health net n b.setup.published ≡ true =
        healthy_lem n b.setup.published (rw same responds) in
      ground (arith, up, published_at runs, h, well)
    where
      some_injective : {x y : Box} → some x ≡ some y → x ≡ y
      some_injective {x} h = ap (λ o. elim o [ none ↦ x | some z ↦ z ]) h

  inspected_steps :
      (n : ℕ) (id : String) (boxes : Boxes) (h : Bool)
      → health_check e net n id boxes ≡ ok h
      → (r : Report) × (e.inspect n id boxes ≡ inspected r)
        × (checked_info net n (container_info (inspected r)) ≡ ok h)
  unfolding health_check inspect_container
  inspected_steps n id boxes h found = go (e.inspect n id boxes) refl found
    where
      go :
          (seen : Inspected)
          → e.inspect n id boxes ≡ seen
          → checked_info net n (container_info seen) ≡ ok h
          → (r : Report) × (e.inspect n id boxes ≡ inspected r)
            × (checked_info net n (container_info (inspected r)) ≡ ok h)
      go not_inspected same found = ground (arith, found)
      go inspection_failed same found = ground (arith, found)
      go (inspected r) same found = (r, same, found)

  pub health_check-Healthy :
      (n : ℕ) (id : String) (boxes : Boxes)
      → health_check e net n id boxes ≡ ok true
      → Healthy n id boxes
  health_check-Healthy n id boxes h =
      let (r, seen, found) = inspected_steps n id boxes true h in
      reported-Healthy n id boxes r seen found

  pub health_check-Unhealthy :
      (n : ℕ) (id : String) (boxes : Boxes)
      → health_check e net n id boxes ≡ ok false
      → Unhealthy n id boxes
  health_check-Unhealthy n id boxes h =
      let (r, seen, found) = inspected_steps n id boxes false h in
      reported-Unhealthy n id boxes r seen found

  checked_port_succeeds : (n : ℕ) (port : Option ℕ) → (h : Bool) × (checked_port net n port ≡ ok h)
  checked_port_succeeds n none = (false, refl)
  checked_port_succeeds n (some port) = (check_container_health net n port, refl)

  pub health_check_succeeds :
      (n : ℕ) (id : String) (boxes : Boxes) (r : Report)
      → e.inspect n id boxes ≡ inspected r
      → (h : Bool) × (health_check e net n id boxes ≡ ok h)
  unfolding health_check inspect_container
  health_check_succeeds n id boxes r seen = elim (Bool-cases (str_eq r.status "running")) [
    | inl up ↦
        let (h, found) = checked_port_succeeds n (port_of 80 (first_bindings r.port_bindings)) in
        (h, rw (seen, up) found)
    | inr down ↦ (false, rw (seen, down) refl)
  ]
