-- ===== src/Tests/Served.antt =====
-- The repository and its promises at a concrete run, in which one command is refused and one reply lost.
use try_it_now.Base.{
  true, Bool-cases, inl, inr, str_eq, ◌+◌, ◌≤◌, ◌≡◌, List, some, none, [], ◌∷◌, eq_iff, ◌==◌,
  if◌then◌else◌,
}
use try_it_now.Domain.{ready}
use try_it_now.Valkey.{json}
use try_it_now.World.{Services, delivered, refused, lost}
use try_it_now.Tests.Sample.{
  sample_valkey-IsDocumented, sample_instance, sample_services, sample_keyspace, sample_world,
}
use try_it_now.Store.Contract.{IsRepository}
use try_it_now.Store.Repository.{valkey_repository, stock_of}
use try_it_now.Store.Repository.Refines.{valkey_repository-IsRepository}
use try_it_now.Store.Runs.{Call, acquire, add, allocate, release, run, one}
use try_it_now.Store.Runs.Handed.{IsKeyed, times, times_handed, times_added}
use try_it_now.Store.Runs.Ports.{times_given, times_released}
use try_it_now.Store.Served.{handed_out_at_most, ports_given_at_most}

abbrev faulty : Services
faulty = sample_services (λ n. if n == 1 then refused else if n == 4 then lost else delivered) true

abbrev calls : List Call
calls =
    acquire
    ∷ acquire
    ∷ add (sample_instance "a" 1 ready)
    ∷ acquire
    ∷ allocate
    ∷ release 3
    ∷ allocate
    ∷ []

sample-IsKeyed : IsKeyed (stock_of sample_keyspace)
sample-IsKeyed id i stored = elim (Bool-cases (str_eq id "a")) [
  | inl a ↦
      let found : some (json (sample_instance "a" 1 ready)) ≡ some (json i) = rw a at stored in
      let named : id ≡ "a" = (eq_iff id "a").0 a in cc
  | inr not_a ↦ elim (Bool-cases (str_eq id "b")) [
    | inl b ↦
        let found : some (json (sample_instance "b" 2 ready)) ≡ some (json i) =
          rw (not_a, b) at stored in
        let named : id ≡ "b" = (eq_iff id "b").0 b in cc
    | inr not_b ↦ let found : none ≡ some (json i) = rw (not_a, not_b) at stored in cc
  ]
]

valkey_repository_example : IsRepository (valkey_repository faulty) stock_of
valkey_repository_example = valkey_repository-IsRepository faulty sample_valkey-IsDocumented

handed_out_example :
    times_handed "a" (run (valkey_repository faulty) calls sample_world).0
      + times "a" (stock_of (run (valkey_repository faulty) calls sample_world).1.keyspace).queue
    ≤ times_added "a" calls + times "a" (stock_of sample_keyspace).queue
handed_out_example =
    handed_out_at_most faulty "a" calls sample_world sample_valkey-IsDocumented sample-IsKeyed

ports_given_example :
    times_given 3 (run (valkey_repository faulty) calls sample_world).0
      + one ((stock_of (run (valkey_repository faulty) calls sample_world).1.keyspace).free 3)
    ≤ times_released 3 calls + one ((stock_of sample_keyspace).free 3)
ports_given_example = ports_given_at_most faulty 3 calls sample_world sample_valkey-IsDocumented
