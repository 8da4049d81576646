-- ===== src/Store/Repository/Texts.antt =====
-- The calls on instances and on the ready queue keep their promises.
use try_it_now.Base.{
  String, ◌≡◌, inl, inr, refl, sym, ap, ◌∙◌, subst, Option, none, some, [], ◌∷◌, str_eq, eq_iff,
  arith, remove_first, Bool-cases, contains, insert, remove, contains-insert, contains-remove,
  false, if◌then◌else◌,
}
use try_it_now.Domain.{Instance, InstanceState, state_eq, ready}
use try_it_now.Valkey.{
  Keyspace, Value, json, malformed, instance_key, pool_ready, state_set, update,
}
use try_it_now.World.{Services, World, Result, query, perform}
use try_it_now.World.Reliable.{documented_services}
use try_it_now.Store.Instances.{save_instance, get_instance, delete_instance, decode, delete_found}
use try_it_now.Store.Instances.Index.{state_eq_iff}
use try_it_now.Store.Queue.{add_to_pool, remove_from_pool}
use try_it_now.Store.Contract.{
  Stock, Stock-ext, put, enqueue, list_in, unlist, Finishes, Looks, outcome,
}
use try_it_now.Store.Repository.{stock_of}
use try_it_now.Store.Repository.Rules.{
  command-last, perform-Finishes, then-Finishes, after-Finishes,
}

pub stock_of-list :
    (state : InstanceState) (id : String) (ks : Keyspace)
    → stock_of (record ks {
      sets = update ks.sets (state_set state) (insert str_eq id (ks.sets (state_set state)));
    })
      ≡ list_in state id (stock_of ks)
stock_of-list state id ks =
    Stock-ext _ (list_in state id (stock_of ks)) (λ j. refl)
      (λ u j. elim (Bool-cases (state_eq state u)) [
        | inl same ↦ rw same (contains-insert str_eq eq_iff id j (ks.sets (state_set state)))
        | inr other ↦ rw other refl
      ])
      refl (λ p. refl) (λ p. refl)

pub stock_of-unlist :
    (i : Instance) (id : String) (ks : Keyspace)
    → stock_of (record ks {
      sets = update ks.sets (state_set i.state) (remove str_eq id (ks.sets (state_set i.state)));
    })
      ≡ unlist id (some (json i)) (stock_of ks)
stock_of-unlist i id ks =
    Stock-ext _ (unlist id (some (json i)) (stock_of ks)) (λ j. refl)
      (λ u j. elim (Bool-cases (state_eq i.state u)) [
        | inl same ↦
            let e : i.state ≡ u = (state_eq_iff i.state u).0 same in
            rw same (
              contains-remove str_eq eq_iff id j (ks.sets (state_set i.state))
              ∙ ap (λ v. if str_eq id j then false else contains str_eq j (ks.sets (state_set v)))
                  e)
        | inr other ↦ rw other refl
      ])
      refl (λ p. refl) (λ p. refl)

module _ (x : Services) (w : World) where
  abbrev y : Services
  y = documented_services x

  abbrev before : Stock
  before = stock_of w.keyspace

  pub save_documented :
      (i : Instance)
      → let text = put i.id (some (json i)) before in
        Finishes
          (before ∷ text ∷ [])
          (list_in i.state i.id text)
          (outcome stock_of (save_instance y i w))
  unfolding save_instance
  save_documented i =
      let text = put i.id (some (json i)) before in
      let done = list_in i.state i.id text in
      then-Finishes y (before ∷ text ∷ []) done (y.valkey.set (instance_key i.id) (json i)) _ w
        (inr (inl refl)) (inr (inr (inl refl)))
        (λ w' e.
          perform-Finishes y (before ∷ text ∷ []) done (y.valkey.sadd (state_set i.state) i.id) w'
            (inr (inr (inl e)))
            (stock_of-list i.state i.id w'.keyspace ∙ ap (list_in i.state i.id) e))

  pub look_documented :
      (id : String)
      → Looks before (decode (before.texts id)) (outcome stock_of (get_instance y id w))
  unfolding get_instance query
  look_documented id =
      command-last y (Looks before (decode (before.texts id)))
        (λ ks. (y.valkey.get (instance_key id) ks, ks)) decode w (inr refl, refl) (inr refl, refl)
        (inl refl, refl)

  delete_text :
      (id : String) (t : Option Value) (w' : World)
      → before.texts id ≡ t
      → stock_of w'.keyspace ≡ before
      → Finishes
          (before ∷ unlist id t before ∷ [])
          (put id none (unlist id t before))
          (outcome stock_of (delete_found y id (decode t) w'))
  delete_text id none w' absent e =
      e
      ∙ Stock-ext before (put id none before) (λ j. ground (arith, absent, eq_iff id j))
          (λ u j. refl) refl (λ p. refl) (λ p. refl)
  delete_text id (some malformed) w' found e = inr (inl e)
  delete_text id (some (json i)) w' found e =
      let unlisted = unlist id (some (json i)) before in
      let gone = stock_of-unlist i id w'.keyspace ∙ ap (unlist id (some (json i))) e in
      then-Finishes y (before ∷ unlisted ∷ []) (put id none unlisted)
        (y.valkey.srem (state_set i.state) id) _ w' (inr (inl e)) (inr (inr (inl gone)))
        (λ w₁ e₁.
          perform-Finishes y (before ∷ unlisted ∷ []) (put id none unlisted)
            (y.valkey.del (instance_key id)) w₁ (inr (inr (inl (e₁ ∙ gone))))
            (ap (put id none) (e₁ ∙ gone)))

  pub delete_documented :
      (id : String)
      → let unlisted = unlist id (before.texts id) before in
        Finishes
          (before ∷ unlisted ∷ [])
          (put id none unlisted)
          (outcome stock_of (delete_instance y id w))
  unfolding delete_instance
  delete_documented id =
      let w' = (get_instance y id w).1 in
      let Left : Result Instance → Type 0 = λ r.
        let unlisted = unlist id (before.texts id) before in
        Finishes (before ∷ unlisted ∷ []) (put id none unlisted)
          (outcome stock_of (delete_found y id r w')) in
      let (answered, same) = look_documented id in
      elim answered [
        | inl e ↦ subst Left (sym e) (delete_text id (before.texts id) w' refl same)
        | inr e ↦ subst Left (sym e) (inr (inl same))
      ]

  pub remove_documented :
      (id : String)
      → Finishes
          (before ∷ [])
          (record before { queue = remove_first str_eq id before.queue })
          (outcome stock_of (remove_from_pool y id w))
  unfolding remove_from_pool
  remove_documented id =
      perform-Finishes y (before ∷ [])
        (record before { queue = remove_first str_eq id before.queue })
        (y.valkey.lrem_one pool_ready id) w (inr (inl refl)) refl

  pub add_documented :
      (i : Instance)
      → let text = put i.id (some (json (record i { state = ready }))) before in
        let saved = list_in ready i.id text in
        Finishes
          (before ∷ text ∷ saved ∷ [])
          (enqueue i.id saved)
          (outcome stock_of (add_to_pool y i w))
  unfolding add_to_pool
  add_documented i =
      let readied = record i { state = ready } in
      let text = put i.id (some (json readied)) before in
      let saved = list_in ready i.id text in
      let done = enqueue i.id saved in
      let add = y.valkey.rpush pool_ready i.id in
      let (r, w') = save_instance y readied w in
      let partly = before ∷ text ∷ saved ∷ [] in
      after-Finishes y partly done (perform y add) r (before ∷ text ∷ []) saved w'
        (save_documented readied)
        (λ among. elim among [
          | inl e ↦ inr (inr (inr (inl e)))
          | inr (inl e) ↦ inr (inl e)
          | inr (inr (inl e)) ↦ inr (inr (inl e))
          | inr (inr (inr none_left)) ↦ absurd none_left
        ])
        (λ e. perform-Finishes y partly done add w' (inr (inr (inr (inl e)))) (ap (enqueue i.id) e))
