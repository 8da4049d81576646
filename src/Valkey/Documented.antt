-- ===== src/Valkey/Documented.antt =====
-- A server that behaves as documented is the one that the documentation describes, but for the two
-- choices left open. A proof about any such server rewrites by this equation and computes.
use try_it_now.Base.{
  ◌≡◌, ◌++◌, [], ◌∷◌, some, none, str_eq, ◌==◌, length, insert, insert_all, remove, remove_first,
}
use try_it_now.Valkey.{Valkey, IsDocumented, update, popped, live_count, incremented, expiring}

abbrev pub documented : Valkey → Valkey
documented v = record {
  get = λ k ks. ks.strings k;
  set = λ k t ks. record ks { strings = update ks.strings k (some t) };
  del = λ k ks. record ks { strings = update ks.strings k none };
  lpop = λ k ks.
      ((popped (ks.lists k)).0, record ks { lists = update ks.lists k (popped (ks.lists k)).1 });
  rpush = λ k x ks. record ks { lists = update ks.lists k (ks.lists k ++ x ∷ []) };
  lrem_one = λ k x ks. record ks { lists = update ks.lists k (remove_first str_eq x (ks.lists k)) };
  llen = λ k ks. length (ks.lists k);
  sadd = λ k x ks. record ks { sets = update ks.sets k (insert str_eq x (ks.sets k)) };
  srem = λ k x ks. record ks { sets = update ks.sets k (remove str_eq x (ks.sets k)) };
  scard = λ k ks. length (ks.sets k);
  smembers = v.smembers;
  port_sadd = λ k ps ks. record ks {
    port_sets = update ks.port_sets k (insert_all ◌==◌ ps (ks.port_sets k));
  };
  port_srem =
      λ k p ks. record ks { port_sets = update ks.port_sets k (remove ◌==◌ p (ks.port_sets k)) };
  port_scard = λ k ks. length (ks.port_sets k);
  port_spop = v.port_spop;
  get_count = λ now k ks. live_count now (ks.counters k);
  incr = λ now k ks. record ks {
    counters = update ks.counters k (some (incremented now (ks.counters k)));
  };
  expire = λ now k seconds ks. record ks {
    counters = update ks.counters k (expiring now seconds (ks.counters k));
  };
}

pub documented_lem : (v : Valkey) → IsDocumented v → v ≡ documented v
documented_lem v d = λ i. record {
  get = λ k ks. d.get_lem k ks i;
  set = λ k t ks. d.set_lem k t ks i;
  del = λ k ks. d.del_lem k ks i;
  lpop = λ k ks. d.lpop_lem k ks i;
  rpush = λ k x ks. d.rpush_lem k x ks i;
  lrem_one = λ k x ks. d.lrem_one_lem k x ks i;
  llen = λ k ks. d.llen_lem k ks i;
  sadd = λ k x ks. d.sadd_lem k x ks i;
  srem = λ k x ks. d.srem_lem k x ks i;
  scard = λ k ks. d.scard_lem k ks i;
  smembers = v.smembers;
  port_sadd = λ k ps ks. d.port_sadd_lem k ps ks i;
  port_srem = λ k p ks. d.port_srem_lem k p ks i;
  port_scard = λ k ks. d.port_scard_lem k ks i;
  port_spop = v.port_spop;
  get_count = λ now k ks. d.get_count_lem now k ks i;
  incr = λ now k ks. d.incr_lem now k ks i;
  expire = λ now k seconds ks. d.expire_lem now k seconds ks i;
}
