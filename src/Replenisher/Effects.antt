-- ===== src/Replenisher/Effects.antt =====
-- By how much a run can lengthen the queue, whatever faults its commands meet.
use try_it_now.Base.{ℕ, ◌+◌, ◌≤◌, ◌≡◌, refl, ap, List, [], ◌∷◌, arith, String, length}
use try_it_now.Domain.{
  Instance, assigned, instance_not_found, pool_exhausted, no_ports_available, route_creation_failed,
  route_not_found, failure, max_ttl_exceeded,
}
use try_it_now.Valkey.{IsDocumented, Keyspace, Key, pool_ready, instance_key, state_set}
use try_it_now.World.{
  Services, World, Result, ok, err, M, continue, attempt, deliver, Fault, delivered, refused, lost,
  command, query, perform, pure, lift, ◌>>=◌, advance, now,
}
use try_it_now.Store.Instances.{
  get_instance, delete_instance, delete_found, decode, get_all, add_listed, list_by_state,
  list_expired, only_expired,
}
use try_it_now.Store.Ports.{release_port}
use try_it_now.Pool.{
  release, clean_up, release_all, cleanup_expired, remove_route, drop_tables, stop_container,
}
use try_it_now.Pool.Frames.{
  keyspace-remove_route, keyspace-drop_tables, keyspace-stop_container, release_port-KeepsInstances,
}
use try_it_now.Provision.Replenish.{ready_count}

-- The queue is at most `n` longer after the run.
pub record AddsAtMost {A : Type 0} (n : ℕ) (m : M A) : Type 0 where
  pub at_most : (w : World) → ready_count (m w).1.keyspace ≤ n + ready_count w.keyspace

continue_at_most :
    {A B : Type 0} (n k : ℕ) (f : A → M B) (r : Result A) (w : World)
    → ((a : A) → AddsAtMost n (f a))
    → ready_count w.keyspace ≤ k
    → ready_count (continue r f w).1.keyspace ≤ n + k
continue_at_most n k f (ok a) w later before =
    let added : ready_count (f a w).1.keyspace ≤ n + ready_count w.keyspace = (later a).at_most w in
    omega arith
continue_at_most n k f (err e) w later before = omega arith

pub in_turn :
    {A B : Type 0} {n k : ℕ} {m : M A} {f : A → M B}
    → AddsAtMost k m
    → ((a : A) → AddsAtMost n (f a))
    → AddsAtMost (n + k) (m >>= f)
in_turn {n = n} {k = k} {m = m} {f = f} first later = record {
  at_most = λ w.
      let one : ready_count (m w).1.keyspace ≤ k + ready_count w.keyspace = first.at_most w in
      let both : ready_count ((m >>= f) w).1.keyspace ≤ n + (k + ready_count w.keyspace) =
        continue_at_most n (k + ready_count w.keyspace) f (m w).0 (m w).1 later one in
      omega arith;
}

pub attempted : {A : Type 0} {n : ℕ} {m : M A} → AddsAtMost n m → AddsAtMost n (attempt m)
attempted h = record { at_most = h.at_most }

pub unmoved :
    {A : Type 0} (m : M A) → ((w : World) → (m w).1.keyspace ≡ w.keyspace) → AddsAtMost 0 m
unmoved m h = record {
  at_most = λ w.
      let same : ready_count (m w).1.keyspace ≡ ready_count w.keyspace = ap ready_count (h w) in
      omega arith;
}

pub idle : {A : Type 0} (r : Result A) → AddsAtMost 0 (lift r)
idle r = record { at_most = λ w. omega arith }

delivered_at_most :
    {A : Type 0} (n k : ℕ) (fault : Fault) (a : A) (ks : Keyspace) (w : World)
    → ready_count ks ≤ n + k
    → ready_count w.keyspace ≡ k
    → ready_count (deliver fault (a, ks) w).1.keyspace ≤ n + k
delivered_at_most n k delivered a ks w h e = h
delivered_at_most n k refused a ks w h e = omega arith
delivered_at_most n k lost a ks w h e = h

pub performed :
    (n : ℕ) (x : Services) (f : Keyspace → Keyspace)
    → ((ks : Keyspace) → ready_count (f ks) ≤ n + ready_count ks)
    → AddsAtMost n (perform x f)
unfolding perform command
performed n x f h = record {
  at_most = λ w.
      delivered_at_most n (ready_count w.keyspace) (x.fault w.place) tt (f w.keyspace) (advance x w)
        (h w.keyspace) refl;
}

pub asked : {A : Type 0} (x : Services) (f : Keyspace → A) → AddsAtMost 0 (query x f)
unfolding query command
asked x f = record {
  at_most = λ w.
      delivered_at_most 0 (ready_count w.keyspace) (x.fault w.place) (f w.keyspace) w.keyspace
        (advance x w) (omega arith) refl;
}

-- A command that leaves the lists as they are.
pub listless :
    (before after : Keyspace)
    → after.lists ≡ before.lists
    → ready_count after ≤ 0 + ready_count before
listless before after e =
    let same : ready_count after ≡ ready_count before =
      ap (λ (f : Key → List String). length (f pool_ready)) e in
    omega arith

pub get_instance_at_most : (x : Services) (id : String) → AddsAtMost 0 (get_instance x id)
unfolding get_instance
get_instance_at_most x id =
    in_turn {f = λ found. lift (decode found)} (asked x (x.valkey.get (instance_key id)))
      (λ found. idle (decode found))

-- What is dropped for the rest leaves the queue as it is.
pub first :
    {A B : Type 0} (m : M A) (rest : M B)
    → AddsAtMost 0 m
    → AddsAtMost 0 rest
    → AddsAtMost 0 (attempt m >>= λ _. rest)
first m rest h k = in_turn {m = attempt m} {f = λ _. rest} (attempted {m = m} h) (λ _. k)

module _ (x : Services) (d : IsDocumented x.valkey) where
  removed_from : (k : Key) (id : String) → AddsAtMost 0 (perform x (x.valkey.srem k id))
  removed_from k id = performed 0 x (x.valkey.srem k id) (λ ks.
      listless ks (x.valkey.srem k id ks) (ap (λ (v : Keyspace). v.lists) (d.srem_lem k id ks)))

  deleted : (k : Key) → AddsAtMost 0 (perform x (x.valkey.del k))
  deleted k =
      performed 0 x (x.valkey.del k)
        (λ ks. listless ks (x.valkey.del k ks) (ap (λ (v : Keyspace). v.lists) (d.del_lem k ks)))

  delete_found_at_most : (id : String) (r : Result Instance) → AddsAtMost 0 (delete_found x id r)
  delete_found_at_most id (ok i) =
      in_turn {f = λ _. perform x (x.valkey.del (instance_key id))}
        (removed_from (state_set i.state) id) (λ _. deleted (instance_key id))
  delete_found_at_most id (err instance_not_found) = idle (ok tt)
  delete_found_at_most id (err pool_exhausted) = idle (err pool_exhausted)
  delete_found_at_most id (err no_ports_available) = idle (err no_ports_available)
  delete_found_at_most id (err route_creation_failed) = idle (err route_creation_failed)
  delete_found_at_most id (err route_not_found) = idle (err route_not_found)
  delete_found_at_most id (err failure) = idle (err failure)
  delete_found_at_most id (err (max_ttl_exceeded n)) = idle (err (max_ttl_exceeded n))

  delete_instance_at_most : (id : String) → AddsAtMost 0 (delete_instance x id)
  unfolding delete_instance
  delete_instance_at_most id =
      in_turn {f = delete_found x id}
        (attempted {m = get_instance x id} (get_instance_at_most x id)) (delete_found_at_most id)

  pub release_port_at_most : (port : ℕ) → AddsAtMost 0 (release_port x port)
  release_port_at_most port = record {
    at_most = λ w.
        listless w.keyspace (release_port x port w).1.keyspace
          (release_port-KeepsInstances x w port d).lists;
  }

  clean_up_at_most : (id : String) (i : Instance) → AddsAtMost 0 (clean_up x id i)
  unfolding clean_up
  clean_up_at_most id i =
      let port =
        first (release_port x i.port) (delete_instance x id) (release_port_at_most i.port)
          (delete_instance_at_most id) in
      let stop =
        first (stop_container x i.container_id)
          (attempt (release_port x i.port) >>= λ _. delete_instance x id)
          (unmoved (stop_container x i.container_id)
            (λ w. keyspace-stop_container x w i.container_id))
          port in
      let tables =
        first (drop_tables x x.database i.db_prefix)
          (attempt (stop_container x i.container_id) >>= λ _.
            attempt (release_port x i.port) >>= λ _. delete_instance x id)
          (unmoved (drop_tables x x.database i.db_prefix)
            (λ w. keyspace-drop_tables x w x.database i.db_prefix))
          stop in
      first (remove_route x i.hostname) _
        (unmoved (remove_route x i.hostname) (λ w. keyspace-remove_route x w i.hostname)) tables

  pub release_at_most : (id : String) → AddsAtMost 0 (release x id)
  unfolding release
  release_at_most id = in_turn {f = clean_up x id} (get_instance_at_most x id) (clean_up_at_most id)

  release_all_at_most : (is : List Instance) → AddsAtMost 0 (release_all x is)
  unfolding release_all
  release_all_at_most [] = idle (ok tt)
  release_all_at_most (i ∷ is) =
      first (release x i.id) (release_all x is) (release_at_most i.id) (release_all_at_most is)

add_listed_at_most :
    (r : Result Instance) (rest : M (List Instance))
    → AddsAtMost 0 rest
    → AddsAtMost 0 (add_listed r rest)
add_listed_at_most (ok i) rest h =
    in_turn {f = λ others. pure (i ∷ others)} h (λ others. idle (ok (i ∷ others)))
add_listed_at_most (err instance_not_found) rest h = h
add_listed_at_most (err pool_exhausted) rest h = idle (err pool_exhausted)
add_listed_at_most (err no_ports_available) rest h = idle (err no_ports_available)
add_listed_at_most (err route_creation_failed) rest h = idle (err route_creation_failed)
add_listed_at_most (err route_not_found) rest h = idle (err route_not_found)
add_listed_at_most (err failure) rest h = idle (err failure)
add_listed_at_most (err (max_ttl_exceeded n)) rest h = idle (err (max_ttl_exceeded n))

get_all_at_most : (x : Services) (ids : List String) → AddsAtMost 0 (get_all x ids)
unfolding get_all
get_all_at_most x [] = idle (ok [])
get_all_at_most x (id ∷ ids) =
    in_turn {m = attempt (get_instance x id)} {f = λ found. add_listed found (get_all x ids)}
      (attempted {m = get_instance x id} (get_instance_at_most x id))
      (λ found. add_listed_at_most found (get_all x ids) (get_all_at_most x ids))

list_expired_at_most : (x : Services) → AddsAtMost 0 (list_expired x)
unfolding list_expired list_by_state
list_expired_at_most x =
    in_turn {m = list_by_state x assigned}
      {f = λ candidates. now >>= λ t. pure (only_expired t candidates)}
      (in_turn {f = get_all x} (asked x (x.valkey.smembers (state_set assigned)))
        (get_all_at_most x))
      (λ candidates.
        in_turn {m = now} {f = λ t. pure (only_expired t candidates)} (unmoved now (λ w. refl))
          (λ t. idle (ok (only_expired t candidates))))

pub cleanup_expired_at_most :
    (x : Services) → IsDocumented x.valkey → AddsAtMost 0 (cleanup_expired x)
unfolding cleanup_expired
cleanup_expired_at_most x d =
    in_turn {m = list_expired x} {f = release_all x} (list_expired_at_most x)
      (release_all_at_most x d)
