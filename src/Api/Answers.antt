-- ===== src/Api/Answers.antt =====
-- internal/api/handler.go: what requests are answered, where no command is lost.
use try_it_now.Base.{◌≡◌, refl, ◌∙◌, String, false, none, some, arith, eq_iff}
use try_it_now.Domain.{Instance}
use try_it_now.Valkey.{json}
use try_it_now.World.{Services, World, ok, command}
use try_it_now.World.Reliable.{IsReliable, reliable, reliable_lem}
use try_it_now.Store.Instances.{get_instance, decode}
use try_it_now.Store.Instances.Lookup.{stored, get_instance_lem}
use try_it_now.Store.Limits.{check_and_increment_rate_limit, rate_limit_script}
use try_it_now.Store.Limits.Counters.{within_limits}
use try_it_now.Pool.{release}
use try_it_now.Pool.Release.{release-Released}
use try_it_now.Api.{
  Config, error_response, release_response, not_found, rate_limited, get_demo, release_demo,
  acquire_demo,
}

module _ (x : Services) (c : Config) (w : World) where
  limited_reliable :
      (ip : String)
      → within_limits w.clock ip c.requests_per_hour c.requests_per_day w.keyspace ≡ false
      → ((acquire_demo (reliable x) c ip w).0
          ≡ ok (record { status = 429; body = error_response rate_limited }))
        × ((acquire_demo (reliable x) c ip w).1.keyspace ≡ w.keyspace)
        × ((acquire_demo (reliable x) c ip w).1.trace ≡ w.trace)
  unfolding acquire_demo check_and_increment_rate_limit command rate_limit_script
  limited_reliable ip h = ground arith

-- Where no command is lost: an address that has reached a limit is answered 429: nothing that is
-- stored changes, no counter either, and no call is made to the runtime, the route manager or the
-- database.
pub acquire_demo_limited :
    (x : Services) (c : Config) (ip : String) (w : World)
    → IsReliable x
    → within_limits w.clock ip c.requests_per_hour c.requests_per_day w.keyspace ≡ false
    → ((acquire_demo x c ip w).0 ≡ ok (record { status = 429; body = error_response rate_limited }))
      × ((acquire_demo x c ip w).1.keyspace ≡ w.keyspace)
      × ((acquire_demo x c ip w).1.trace ≡ w.trace)
acquire_demo_limited x c ip w r h = rw (reliable_lem x r) (limited_reliable x c w ip h)

released_steps :
    (x : Services) (id : String) (w : World) (i : Instance)
    → (get_instance x id w).0 ≡ ok i
    → (release x id (get_instance x id w).1).0 ≡ ok tt
    → release_demo x id w ≡ (
      ok (record { status = 200; body = release_response id }),
      (release x id (get_instance x id w).1).1,
    )
unfolding release_demo
released_steps x id w i got released = rw (got, released, release_demo) refl

get_gone :
    (x : Services) (c : Config) (id : String) (w : World)
    → (get_instance x id w).0 ≡ decode none
    → (get_demo x c id w).0 ≡ ok (record { status = 404; body = error_response not_found })
unfolding get_demo
get_gone x c id w h = rw (h, get_demo) refl

-- Where no command is lost: deleting a stored instance is answered 200, whatever the runtime, the
-- route manager and the database answer, and a request for the instance that is handled right after
-- it, with nothing in between, is answered 404.
pub get_demo-release_demo :
    (x : Services) (c : Config) (id : String) (i : Instance) (w : World)
    → IsReliable x
    → stored id w.keyspace ≡ some (json i)
    → ((release_demo x id w).0 ≡ ok (record { status = 200; body = release_response id }))
      × ((get_demo x c id (release_demo x id w).1).0
          ≡ ok (record { status = 404; body = error_response not_found }))
get_demo-release_demo x c id i w r s =
    let w₁ = (get_instance x id w).1 in
    let (got, same) = get_instance_lem x w id r in
    let there : stored id w₁.keyspace ≡ some (json i) = rw same s in
    let (done, released) = release-Released x id i w₁ r there in
    let w₂ = (release x id w₁).1 in
    let gone : stored id w₂.keyspace ≡ none = ground (arith, released.gone id, eq_iff id id) in
    rw (released_steps x id w i (got ∙ rw s refl) done)
      (refl, get_gone x c id w₂ ((get_instance_lem x w₂ id r).0 ∙ rw gone refl))
