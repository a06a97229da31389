-- ===== src/SelfLoop/Correct.antt =====
-- The main functions of app1.cpp and its likes: what is delivered, and a property of the manager
-- together.
use poc_event_manager.Prelude.{
  ◌≡◌, refl, false, true, some, ◌>>=◌, List, [], ◌++◌, map, ℤ, subst, sym, ◌∙◌, some-cancel, ◌==ℤ◌,
  minus_one,
}
use poc_event_manager.Event.{Event, Event-IsSet}
use poc_event_manager.Delivery.{IsDelivered, begin-IsDelivered, undropped-IsDelivered}
use poc_event_manager.Counters.{zero_counters}
use poc_event_manager.Manager.Interface.{IManager, IsConserving}
use poc_event_manager.SelfLoop.Defs.{Turn, Program, start, run, rounds}
use poc_event_manager.SelfLoop.Delivering.{main-IsDelivered}
use poc_event_manager.SelfLoop.Invariant.{IsKept, main-keeps}

module _ {In M : Type 0} (ops : IManager In Event M) (laws : IsConserving ops)
    (P : List In → List Event → M → Type 0) (Mid : List Event → List In → List Event → M → Type 0)
    (kept : IsKept ops P Mid) where
  open laws use {IsValid, queued, counters, offers}

  pub main_lem :
      (created ctl : ℤ) (m : M) (ts : List (Turn In))
      → (created ==ℤ minus_one) ≡ false
      → IsValid m
      → queued m ≡ []
      → counters m ≡ zero_counters
      → P [] [] m
      → (p : Program M) × ((start ops created ctl m >>= run ops ts) ≡ some p)
        × IsDelivered
            (map offers (rounds true false ts))
            p.consumed
            (queued p.manager)
            (counters p.manager)
        × P (rounds true false ts) p.consumed p.manager
  main_lem created ctl m ts h v q c pm =
      let (p, e, d') =
        main-IsDelivered ops laws [] [] created ctl m ts h v (rw (q, c) begin-IsDelivered) in
      let (r, e', pr) = main-keeps ops P Mid kept created ctl m ts h pm in
      (
        p,
        e,
        d',
        subst (λ k. P (rounds true false ts) k.consumed k.manager) (some-cancel (sym e' ∙ e)) pr,
      )

module _ {In M : Type 0} (ops : IManager In Event M) (laws : IsConserving ops) where
  open laws use {IsValid, queued, counters, offers, run_lem, produce_lem, consume_lem, pre_run_lem}

  -- From a new manager, whose queue is empty and whose counters are 0.
  pub main_fresh :
      (created ctl : ℤ) (m : M) (ts : List (Turn In))
      → (created ==ℤ minus_one) ≡ false
      → IsValid m
      → queued m ≡ []
      → counters m ≡ zero_counters
      → (p : Program M) × ((start ops created ctl m >>= run ops ts) ≡ some p)
        × IsDelivered
            (map offers (rounds true false ts))
            p.consumed
            (queued p.manager)
            (counters p.manager)
  main_fresh created ctl m ts h v q c =
      main-IsDelivered ops laws [] [] created ctl m ts h v (rw (q, c) begin-IsDelivered)

  record IsUndropped (m : M) : Type 0 where
    valid : IsValid m
    undropped : (counters m).dropped ≡ 0

  IsUndropped-kept :
      ((i : In) (m m' : M)
        → IsValid m
        → ops.run_impl i m ≡ some m'
        → (counters m').dropped ≡ (counters m).dropped)
      → IsKept ops (λ past done m. IsUndropped m) (λ es past done m. IsUndropped m)
  IsUndropped-kept never = record {
    run_keeps = λ i past done m u.
        let (m', e, v, how) = run_lem i m u.valid in
        (m', e, record { valid = v; undropped = never i m m' u.valid e ∙ u.undropped });
    produce_keeps = λ i past done m u.
        let (es, m', e, v, q, c) = produce_lem i m u.valid in
        (es, m', e, record { valid = v; undropped = rw c u.undropped });
    consume_keeps = λ e es past done m u.
        let (v, q, c) = consume_lem e m u.valid in
        record { valid = v; undropped = rw c u.undropped };
    all_consumed = λ past done m u. u;
    pre_run_keeps = λ m u. subst IsUndropped (sym (pre_run_lem m)) u;
  }

  -- Where _runImpl never counts an event as dropped, all events that were made are consumed or wait,
  -- in the order in which they were made.
  pub main_ordered :
      ((i : In) (m m' : M)
        → IsValid m
        → ops.run_impl i m ≡ some m'
        → (counters m').dropped ≡ (counters m).dropped)
      → (created ctl : ℤ) (m : M) (ts : List (Turn In)) → (created ==ℤ minus_one) ≡ false
      → IsValid m
      → queued m ≡ []
      → counters m ≡ zero_counters
      → (p : Program M) × ((start ops created ctl m >>= run ops ts) ≡ some p)
        × (p.consumed ++ queued p.manager ≡ map offers (rounds true false ts))
        × IsDelivered
            (map offers (rounds true false ts))
            p.consumed
            (queued p.manager)
            (counters p.manager)
        × ((counters p.manager).dropped ≡ 0)
  main_ordered never created ctl m ts h v q c =
      let (p, e, d, u) =
        main_lem ops laws (λ past done m. IsUndropped m) (λ es past done m. IsUndropped m)
          (IsUndropped-kept never) created ctl m ts h v q c
          (record { valid = v; undropped = rw c refl }) in
      (p, e, undropped-IsDelivered Event-IsSet d u.undropped, d, u.undropped)
