-- ===== src/Tasks/Redelivery.antt =====
-- What a cleanup task does to its port, also when it is delivered a second time.
use try_it_now.Base.{
  ℕ, ◌≡◌, ◌<◌, refl, ◌∙◌, ap, String, Bool, true, false, arith, lt→ltb, str_eq, if◌then◌else◌, ◌==◌,
}
use try_it_now.Valkey.{ports_contain, ports_available, ports_in_use}
use try_it_now.World.{Services, World, M, perform, query, command}
use try_it_now.World.Reliable.{IsReliable, reliable, reliable_lem}
use try_it_now.Store.Instances.{delete_instance}
use try_it_now.Store.Ports.{release_port}
use try_it_now.Store.Ports.Exclusive.{is_available, is_in_use}
use try_it_now.Store.Ports.Effects.{release_port_lem}
use try_it_now.Pool.{stop_container, remove_route}
use try_it_now.Pool.Frames.{keyspace-stop_container, keyspace-remove_route, keyspace-drop_tables}
use try_it_now.Tasks.{CleanupTask, cleanup_handler, unless}
use try_it_now.Tasks.Outcomes.{before_cleanup_port, before_cleanup_delete, cleanup_steps}

keyspace-unless :
    (b : Bool) (m : M (Unit {0})) (w : World)
    → (m w).1.keyspace ≡ w.keyspace
    → (unless b m w).1.keyspace ≡ w.keyspace
keyspace-unless true m w h = refl
keyspace-unless false m w h = h

keyspace-before_cleanup_port :
    (x : Services) (task : CleanupTask) (w : World)
    → (before_cleanup_port x task w).keyspace ≡ w.keyspace
unfolding before_cleanup_port
keyspace-before_cleanup_port x task w =
    keyspace-unless (str_eq task.hostname "") (remove_route x task.hostname) _
      (keyspace-remove_route x _ task.hostname)
    ∙ keyspace-drop_tables x _ x.database task.db_prefix
    ∙ keyspace-unless (str_eq task.container_id "") (stop_container x task.container_id) w
        (keyspace-stop_container x w task.container_id)

delete_keeps_ports :
    (x : Services) (id : String) (w : World)
    → (delete_instance (reliable x) id w).1.keyspace.port_sets ≡ w.keyspace.port_sets
unfolding delete_instance perform query command
delete_keeps_ports x id w = ground arith

unless_keeps_ports :
    (x : Services) (b : Bool) (id : String) (w : World)
    → IsReliable x
    → (unless b (delete_instance x id) w).1.keyspace.port_sets ≡ w.keyspace.port_sets
unless_keeps_ports x true id w r = refl
unless_keeps_ports x false id w r = rw (reliable_lem x r) (delete_keeps_ports x id w)

before_delete :
    (x : Services) (task : CleanupTask) (w : World)
    → 0 < task.port
    → before_cleanup_delete x task w ≡ (release_port x task.port (before_cleanup_port x task w)).1
unfolding before_cleanup_delete
before_delete x task w h = rw (lt→ltb 0 task.port h, before_cleanup_delete) refl

-- Where no command is lost: a cleanup task that names a port makes it available and no longer in
-- use, whichever instance holds the port by then, and moves no other port. So a task that is
-- delivered once more, after its port has gone to another instance, takes the port from that one.
pub cleanup_handler_frees_port :
    (x : Services) (task : CleanupTask) (w : World) (p : ℕ)
    → IsReliable x
    → 0 < task.port
    → (is_available p (cleanup_handler x task w).1.keyspace
        ≡ (if task.port == p then true else is_available p w.keyspace))
      × (is_in_use p (cleanup_handler x task w).1.keyspace
          ≡ (if task.port == p then false else is_in_use p w.keyspace))
cleanup_handler_frees_port x task w p r h =
    let w₁ = before_cleanup_port x task w in
    let w₂ = (release_port x task.port w₁).1 in
    let freed = release_port_lem x w₁ task.port p r in
    let same = keyspace-before_cleanup_port x task w in
    let kept = unless_keeps_ports x (str_eq task.instance_id "") task.instance_id w₂ r in
    rw (cleanup_steps x task w, before_delete x task w h)
      (
        ap (λ f. ports_contain p (f ports_available)) kept ∙ freed.0 ∙ rw same refl,
        ap (λ f. ports_contain p (f ports_in_use)) kept ∙ freed.1 ∙ rw same refl,
      )
