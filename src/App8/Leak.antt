-- ===== src/App8/Leak.antt =====
-- `txMutex2.try_lock() && !txQueue2.empty()` keeps the mutex where the queue is empty.
use poc_event_manager.Prelude.{
  ◌+◌, ◌≡◌, refl, true, false, some, ◌>>=◌, List, [], ℤ, ◌==ℤ◌, minus_one, arith,
}
use poc_event_manager.Event.{Event}
use poc_event_manager.SelfLoop.Defs.{Turn, Program, start, run}
use poc_event_manager.SelfLoop.Invariant.{IsKept, main-keeps}
use poc_event_manager.App8.Defs.{ManagerA, Env, run_impl, consume_event, produce, manager_ops}

-- Everything but the signal and the count of dropped events.
record IsFrozen (m k : ManagerA) : Type 0 where
  first_held : k.locked1 ≡ true
  second_held : k.locked2 ≡ true
  first_queue : k.tx_queue1 ≡ m.tx_queue1
  second_queue : k.tx_queue2 ≡ m.tx_queue2
  sent_count : k.counters.tx ≡ m.counters.tx
  received_count : k.counters.rx ≡ m.counters.rx

record Mid (m : ManagerA) (es : List Event) (k : ManagerA) : Type 0 where
  none_made : es ≡ []
  frozen : IsFrozen m k

run_impl-IsFrozen : (m k : ManagerA) (env : Env) → IsFrozen m k → IsFrozen m (run_impl env k)
unfolding run_impl
run_impl-IsFrozen m k env f = ground arith

produce-Mid :
    (m k : ManagerA) (env : Env) → IsFrozen m k → Mid m (produce env k).0 (produce env k).1
unfolding produce
produce-Mid m k env f = ground arith

IsFrozen-kept :
    (m : ManagerA) → IsKept manager_ops (λ past done k. IsFrozen m k) (λ es past done k. Mid m es k)
IsFrozen-kept m = record {
  run_keeps = λ i past done k f. (run_impl i k, refl, run_impl-IsFrozen m k i f);
  produce_keeps = λ i past done k f. ((produce i k).0, (produce i k).1, refl, produce-Mid m k i f);
  consume_keeps = λ e es past done k d. absurd (cc d.none_made);
  all_consumed = λ past done k d. d.frozen;
  pre_run_keeps = λ k f. f;
}

-- One call of Produce with both queues empty, and with the mutexes free or locked by earlier calls
-- but held by nobody else, locks both mutexes and never unlocks them. From then on the program is
-- dead under every schedule: nothing is sent or received any more, and the queues stay empty.
pub produce-wedges :
    (m : ManagerA) (env : Env) (created ctl : ℤ) (ts : List (Turn Env))
    → m.tx_queue1 ≡ []
    → m.tx_queue2 ≡ []
    → env.busy1 ≡ false
    → env.busy2 ≡ false
    → (created ==ℤ minus_one) ≡ false
    → (p : Program ManagerA) × ((start manager_ops created ctl (produce env m).1
          >>= run manager_ops ts)
        ≡ some p)
      × (p.manager.locked1 ≡ true)
      × (p.manager.locked2 ≡ true)
      × (p.manager.tx_queue1 ≡ [])
      × (p.manager.tx_queue2 ≡ [])
      × (p.manager.counters.tx ≡ m.counters.tx)
      × (p.manager.counters.rx ≡ m.counters.rx)
unfolding produce
produce-wedges m env created ctl ts a b c d h =
    let (p, e, f) =
      main-keeps manager_ops (λ past done k. IsFrozen m k) (λ es past done k. Mid m es k)
        (IsFrozen-kept m) created ctl (produce env m).1 ts h (ground arith) in
    (
      p,
      e,
      f.first_held,
      f.second_held,
      cc (f.first_queue, a),
      cc (f.second_queue, b),
      f.sent_count,
      f.received_count,
    )

-- The second mutex is locked for good.
record IsLeaked (k : ManagerA) : Type 0 where
  held : k.locked2 ≡ true
  unused : k.tx_queue2 ≡ []

run_impl-IsLeaked : (k : ManagerA) (env : Env) → IsLeaked k → IsLeaked (run_impl env k)
unfolding run_impl
run_impl-IsLeaked k env f = ground arith

produce-IsLeaked : (k : ManagerA) (env : Env) → IsLeaked k → IsLeaked (produce env k).1
unfolding produce
produce-IsLeaked k env f = ground arith

IsLeaked-kept : IsKept manager_ops (λ past done k. IsLeaked k) (λ es past done k. IsLeaked k)
unfolding consume_event
IsLeaked-kept = record {
  run_keeps = λ i past done k f. (run_impl i k, refl, run_impl-IsLeaked k i f);
  produce_keeps =
      λ i past done k f. ((produce i k).0, (produce i k).1, refl, produce-IsLeaked k i f);
  consume_keeps = λ e es past done k f. record { held = f.held; unused = f.unused };
  all_consumed = λ past done k f. f;
  pre_run_keeps = λ k f. f;
}

-- The first call of Produce that finds the second mutex free and the second queue empty disables
-- that queue: under every schedule after it the mutex stays locked and the queue empty, so an event
-- sent while the first mutex is taken is dropped.
pub produce-disables_second :
    (m : ManagerA) (env later : Env) (created ctl : ℤ) (ts : List (Turn Env))
    → m.tx_queue2 ≡ []
    → m.locked2 ≡ false
    → env.busy2 ≡ false
    → later.busy1 ≡ true
    → (created ==ℤ minus_one) ≡ false
    → (p : Program ManagerA) × ((start manager_ops created ctl (produce env m).1
          >>= run manager_ops ts)
        ≡ some p)
      × (p.manager.locked2 ≡ true)
      × (p.manager.tx_queue2 ≡ [])
      × ((run_impl later p.manager).counters.dropped ≡ p.manager.counters.dropped + 1)
unfolding produce run_impl
produce-disables_second m env later created ctl ts a b c busy h =
    let (p, e, f) =
      main-keeps manager_ops (λ past done k. IsLeaked k) (λ es past done k. IsLeaked k)
        IsLeaked-kept created ctl (produce env m).1 ts h (ground arith) in
    (p, e, f.held, f.unused, ground (arith, f.held))
