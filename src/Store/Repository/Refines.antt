-- ===== src/Store/Repository/Refines.antt =====
-- store/valkey.go keeps the promises of store/repository.go.
use try_it_now.Base.{◌≡◌, refl}
use try_it_now.Valkey.{IsDocumented, instance_key, pool_ready}
use try_it_now.Valkey.Documented.{documented}
use try_it_now.World.{Services, World}
use try_it_now.World.Reliable.{documented_services, documented_services_lem}
use try_it_now.Store.Instances.{update_instance_state, updated, update_state_script}
use try_it_now.Store.Queue.{acquire_from_pool, acquire_script, acquired}
use try_it_now.Store.Contract.{Stock, restate_text, hand_front, IsRepository}
use try_it_now.Store.Repository.{valkey_repository, stock_of}
use try_it_now.Store.Repository.Rules.{script-Answers}
use try_it_now.Store.Repository.Texts.{
  save_documented, look_documented, delete_documented, remove_documented, add_documented,
}
use try_it_now.Store.Repository.Scripts.{restate_replies, hand_replies}
use try_it_now.Store.Repository.Ports.{release_documented, allocate_documented}
use try_it_now.Store.Repository.Expiry.{
  OnlyTextAt-refl, set_instance_ttl-Preserves, extend_instance_ttl-Preserves,
  extend_atomic-Preserves,
}
use try_it_now.Store.Repository.Keeps.{
  get_instance_ttl-Preserves, list_by_state-Preserves, list_expired-Preserves,
  check_rate_limit-Preserves,
}
use try_it_now.Store.Repository.Counting.{
  increment_rate_limit-Preserves, check_and_increment-Preserves, get_pool_stats-Preserves,
  increment_counter-Preserves, ping-Preserves,
}

abbrev Same : World → Stock → Type 0
Same w s = s ≡ stock_of w.keyspace

-- On a server that behaves as documented, the repository keeps the promises of its interface,
-- whatever commands are refused, and whatever replies are lost after they took effect. They are about
-- the instances' texts, what is listed under each state, the ready queue and the ports. A call that
-- saves, deletes or restates an instance, adds, withdraws or hands out one, or allocates or releases
-- a port has done all of it if it succeeds, and if it fails has left one of the stocks that the
-- promise names; a look-up answers what is stored. A call that sets or extends an expiry changes
-- nothing but the text of its instance, and any other call changes none of this.
pub valkey_repository-IsRepository :
    (x : Services) → IsDocumented x.valkey → IsRepository (valkey_repository x) stock_of
unfolding valkey_repository update_instance_state update_state_script acquire_from_pool
    acquire_script
valkey_repository-IsRepository x d = rw (documented_services_lem x d) record {
  saves = λ i w. save_documented x w i;
  looks_up = λ id w. look_documented x w id;
  deletes = λ id w. delete_documented x w id;
  restates = λ id new w.
      let replies =
        restate_replies x.valkey w.clock w.keyspace id new (w.keyspace.strings (instance_key id)) in
      script-Answers (documented_services x) w
        (update_state_script (documented x.valkey) new id w.clock) updated
        (restate_text id new w.clock (w.keyspace.strings (instance_key id)) (stock_of w.keyspace))
        replies.0 replies.1;
  hands_out = λ w.
      let replies = hand_replies x.valkey w.clock w.keyspace (w.keyspace.lists pool_ready) refl in
      script-Answers (documented_services x) w (acquire_script (documented x.valkey) w.clock)
        acquired (hand_front w.clock (w.keyspace.lists pool_ready) (stock_of w.keyspace)) replies.0
        replies.1;
  adds = λ i w. add_documented x w i;
  removes = λ id w. remove_documented x w id;
  sets_ttl = λ id ttl w.
      set_instance_ttl-Preserves x id (stock_of w.keyspace) ttl w
        (OnlyTextAt-refl id (stock_of w.keyspace));
  extends_ttl = λ id extension w.
      extend_instance_ttl-Preserves x id (stock_of w.keyspace) extension w
        (OnlyTextAt-refl id (stock_of w.keyspace));
  extends_ttl_atomic = λ id extension maximum w.
      extend_atomic-Preserves x id (stock_of w.keyspace) extension maximum w
        (OnlyTextAt-refl id (stock_of w.keyspace));
  reads_ttl = λ id w. get_instance_ttl-Preserves (Same w) (documented_services x) id w refl;
  lists_state = λ state w. list_by_state-Preserves (Same w) (documented_services x) state w refl;
  lists_expired = λ w. list_expired-Preserves (Same w) (documented_services x) w refl;
  checks_limit = λ ip hourly daily w.
      check_rate_limit-Preserves (Same w) (documented_services x) ip hourly daily w refl;
  counts_request = λ ip w. increment_rate_limit-Preserves (Same w) x ip w refl;
  checks_and_counts =
      λ ip hourly daily w. check_and_increment-Preserves (Same w) x ip hourly daily w refl;
  counts_pool = λ w. get_pool_stats-Preserves (Same w) x w refl;
  increments = λ key w. increment_counter-Preserves (Same w) x key w refl;
  pings = λ w. ping-Preserves (Same w) x w refl;
  allocates = λ w. allocate_documented x w d;
  releases = λ p w. release_documented x w p;
}
