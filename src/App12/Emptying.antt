-- ===== src/App12/Emptying.antt =====
-- What a call of Produce changes.
use poc_event_manager.Prelude.{
  All, count_if, suc, ◌+◌, ◌≡◌, refl, ◌∙◌, ap, sym, subst, some, List, [], arith, length,
}
use poc_event_manager.AutoId.Defs.{AutoId}
use poc_event_manager.PipedEvent.Defs.{consume}
use poc_event_manager.Queues.Drain.{drain-takes_all}
use poc_event_manager.Queues.Spsc.{SpscQueue, front_round, front_round-TakesFront}
use poc_event_manager.App12.Events.{Event}
use poc_event_manager.App12.Managers.{Manager, produce}
use poc_event_manager.App12.Main.{
  Ref, ref_a, ref_b, ref_c, System, manager_of, with_manager, with_manager-all,
}
use poc_event_manager.App12.Routing.{makes, accepts, id_of}
use poc_event_manager.App12.Effects.{tx, arrived, is_ref, debt, Inv}

module _ {Q : Type 0} (lib : SpscQueue Event Q) where
  open lib use {contents}

  -- Produce takes all that is queued, and changes nothing else but the signal.
  pub record Emptied (m m' : Manager Q) : Type 0 where
    pub empty : contents m'.tx_queue ≡ []
    pub same_id : m'.auto_id ≡ m.auto_id
    pub same_counters : m'.counters ≡ m.counters
    pub same_consumed : m'.consumed ≡ m.consumed

  pub produce_total :
      (m : Manager Q)
      → (m' : Manager Q) × (produce lib m ≡ some (contents m.tx_queue, m')) × Emptied m m'
  unfolding produce
  produce_total m =
      let (q', drained, empty) =
        drain-takes_all contents (front_round lib) (front_round-TakesFront lib)
          (suc (length (contents m.tx_queue))) (contents m.tx_queue) m.tx_queue [] refl
          (omega arith) in
      (
        record m { tx_event = consume m.tx_event; tx_queue = q' },
        rw drained,
        record { empty = empty; same_id = refl; same_counters = refl; same_consumed = refl },
      )

  -- A manager whose log is the same.
  pub arrived-with_manager :
      (p : Ref) (m' : Manager Q) (s : System Q) (q : Ref)
      → m'.consumed ≡ (manager_of p s).consumed
      → arrived q (with_manager p m' s) ≡ arrived q s
  arrived-with_manager ref_a m' s ref_a h = refl
  arrived-with_manager ref_a m' s ref_b h = rw h refl
  arrived-with_manager ref_a m' s ref_c h = rw h refl
  arrived-with_manager ref_b m' s ref_a h = rw h refl
  arrived-with_manager ref_b m' s ref_b h = refl
  arrived-with_manager ref_b m' s ref_c h = refl
  arrived-with_manager ref_c m' s ref_a h = rw h refl
  arrived-with_manager ref_c m' s ref_b h = refl
  arrived-with_manager ref_c m' s ref_c h = refl

  Emptied-flow :
      {past : List Ref} (p : Ref) (m' : Manager Q) (s : System Q) (q : Ref)
      → Emptied (manager_of p s) m'
      → Inv lib past (λ q. 0) s
      → (manager_of q (with_manager p m' s)).counters.tx
        ≡ arrived q s
          + debt p (length (contents (manager_of p s).tx_queue)) q
          + length (contents (manager_of q (with_manager p m' s)).tx_queue)
  Emptied-flow ref_a m' s ref_a x v =
      omega (arith, v.flow ref_a, ap length x.empty, ap tx x.same_counters)
  Emptied-flow ref_a m' s ref_b x v = v.flow ref_b
  Emptied-flow ref_a m' s ref_c x v = v.flow ref_c
  Emptied-flow ref_b m' s ref_a x v = v.flow ref_a
  Emptied-flow ref_b m' s ref_b x v =
      omega (arith, v.flow ref_b, ap length x.empty, ap tx x.same_counters)
  Emptied-flow ref_b m' s ref_c x v = v.flow ref_c
  Emptied-flow ref_c m' s ref_a x v = v.flow ref_a
  Emptied-flow ref_c m' s ref_b x v = v.flow ref_b
  Emptied-flow ref_c m' s ref_c x v =
      omega (arith, v.flow ref_c, ap length x.empty, ap tx x.same_counters)

  pub with_manager-Inv :
      {past : List Ref} (p : Ref) (m' : Manager Q) (s : System Q)
      → Emptied (manager_of p s) m'
      → Inv lib past (λ q. 0) s
      → Inv lib past (debt p (length (contents (manager_of p s).tx_queue))) (with_manager p m' s)
  with_manager-Inv {past} p m' s x v = record {
    ids =
        with_manager-all (λ q m. m.auto_id.id ≡ id_of q) p m' s
          (ap (λ (i : AutoId). i.id) x.same_id ∙ v.ids p) v.ids;
    flow = λ q. rw (arrived-with_manager p m' s q x.same_consumed) (Emptied-flow p m' s q x v);
    accounted =
        with_manager-all (λ q m. m.counters.tx + m.counters.dropped ≡ count_if (is_ref q) past) p m'
          s (rw x.same_counters (v.accounted p)) v.accounted;
    received =
        with_manager-all (λ q m. m.counters.rx ≡ length m.consumed) p m' s
          (rw (x.same_counters, x.same_consumed) (v.received p)) v.received;
    made =
        with_manager-all (λ q m. All (makes q) (contents m.tx_queue)) p m' s
          (subst (All (makes p)) (sym x.empty) tt) v.made;
    taken =
        with_manager-all (λ q m. All (accepts q) m.consumed) p m' s
          (subst (All (accepts p)) (sym x.same_consumed) (v.taken p)) v.taken;
  }
