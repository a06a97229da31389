-- ===== src/App3.antt =====
-- app3.cpp: the queue is a std::list under a mutex, without a limit.
use poc_event_manager.Prelude.{
  ◌+◌, ◌≡◌, refl, Option, some, ◌>>=◌, List, [], ◌∷◌, ◌++◌, ℤ, pos, ◌==ℤ◌, minus_one, true, false,
  map, inl, length, sym, append-nil,
}
use poc_event_manager.PipedEvent.Defs.{PipedEvent, construct, fire, consume}
use poc_event_manager.PipedEvent.Signalled.{
  IsSignalled, construct-IsSignalled, fire-IsSignalled, consume-IsSignalled,
}
use poc_event_manager.Event.{Event, event_a, Event-IsSet}
use poc_event_manager.Counters.{Counters, zero_counters, increment_rx, increment_tx}
use poc_event_manager.Delivery.{undropped-IsDelivered}
use poc_event_manager.Manager.Interface.{IManager, IsConserving}
use poc_event_manager.SelfLoop.Defs.{Turn, Program, start, run, rounds}
use poc_event_manager.SelfLoop.Invariant.{IsKept}
use poc_event_manager.SelfLoop.Correct.{main_lem}

-- The members that some method reads. The mutex is held from the emplace to the end of _runImpl and
-- throughout Produce, so each call is one step.
pub record ManagerA : Type 0 where
  pub tx_event : PipedEvent
  pub tx_queue : List Event
  pub counters : Counters

-- `fds` is what `pipe` returned.
unfoldable pub manager_a : Option (ℤ × ℤ) → Option ManagerA
manager_a fds =
    construct fds >>= (λ e. some (record { tx_event = e; tx_queue = []; counters = zero_counters }))

-- The draws are what the two calls of random_int_in_range return; the first event is thrown away.
unfoldable pub run_impl : ℤ × ℤ → ManagerA → ManagerA
run_impl draws m = record m {
  tx_queue = m.tx_queue ++ event_a draws.1 ∷ [];
  counters = increment_tx m.counters;
  tx_event = fire m.tx_event;
}

unfoldable pub consume_event : Event → ManagerA → ManagerA
consume_event e m = record m { counters = increment_rx m.counters }

unfoldable pub produce : ManagerA → List Event × ManagerA
produce m = (m.tx_queue, record m { tx_queue = []; tx_event = consume m.tx_event })

abbrev pub manager_ops : IManager (ℤ × ℤ) Event ManagerA
manager_ops = record {
  get_sources = λ m. m.tx_event.source;
  pre_run_impl = λ m. m;
  run_impl = λ i m. some (run_impl i m);
  consume = consume_event;
  produce = λ i m. some (produce m);
  thread_name = "ManagerA";
}

-- From the results of `pipe`, epoll_create1 and epoll_ctl, and a schedule.
unfoldable pub main : Option (ℤ × ℤ) → ℤ → ℤ → List (Turn (ℤ × ℤ)) → Option (Program ManagerA)
main fds created ctl ts =
    manager_a fds >>= (λ m. start manager_ops created ctl m >>= run manager_ops ts)

unfoldable pub manager_laws : IsConserving manager_ops
unfolding run_impl consume_event produce
manager_laws = record {
  IsValid = λ m. Unit {0};
  queued = λ m. m.tx_queue;
  counters = λ m. m.counters;
  offers = λ draws. event_a draws.1;
  run_lem = λ i m v. (run_impl i m, refl, tt, inl (refl, refl));
  produce_lem = λ i m v. (m.tx_queue, (produce m).1, refl, tt, sym (append-nil m.tx_queue), refl);
  consume_lem = λ e m v. (tt, refl, refl);
  pre_run_lem = λ m. refl;
}

-- The event is fired exactly while something is queued, and nothing is ever dropped.
record Inv (m : ManagerA) : Type 0 where
  undropped : m.counters.dropped ≡ 0
  signalled : IsSignalled m.tx_event m.tx_queue

run_impl-Inv : (draws : ℤ × ℤ) (m : ManagerA) → Inv m → Inv (run_impl draws m)
unfolding run_impl
run_impl-Inv draws m v = record {
  undropped = v.undropped;
  signalled = fire-IsSignalled m.tx_event m.tx_queue (event_a draws.1) v.signalled;
}

Inv-kept : IsKept manager_ops (λ past done m. Inv m) (λ es past done m. Inv m)
unfolding consume_event produce
Inv-kept = record {
  run_keeps = λ i past done m v. (run_impl i m, refl, run_impl-Inv i m v);
  consume_keeps = λ e es past done m v. record { undropped = v.undropped; signalled = v.signalled };
  produce_keeps = λ i past done m v. (
    m.tx_queue,
    (produce m).1,
    refl,
    record {
      undropped = v.undropped;
      signalled = consume-IsSignalled m.tx_event m.tx_queue v.signalled;
    },
  );
  all_consumed = λ past done m v. v;
  pre_run_keeps = λ m v. v;
}

-- If `pipe` gave a source other than descriptor 0 and epoll_create1 succeeded, the program runs
-- under every schedule with no fault. The events consumed, followed by those that wait, are all the
-- events that the calls of _runImpl made, in that order; they are as many as were counted as sent,
-- the consumed ones as many as were counted as received, and nothing was dropped. The pipe holds one byte exactly while something is queued,
-- so that the main loop is woken whenever there is something to take.
pub main-IsSignalled :
    (source sink created ctl : ℤ) (ts : List (Turn (ℤ × ℤ)))
    → (source ==ℤ pos 0) ≡ false
    → (created ==ℤ minus_one) ≡ false
    → (p : Program ManagerA) × (main (some (source, sink)) created ctl ts ≡ some p)
      × (p.consumed ++ p.manager.tx_queue ≡ map (λ draws. event_a draws.1) (rounds true false ts))
      × (p.manager.counters.tx ≡ length p.consumed + length p.manager.tx_queue)
      × (p.manager.counters.rx ≡ length p.consumed)
      × (p.manager.counters.dropped ≡ 0)
      × IsSignalled p.manager.tx_event p.manager.tx_queue
unfolding main manager_a construct manager_laws
main-IsSignalled source sink created ctl ts h k =
    let (p, e, d, v) =
      main_lem manager_ops manager_laws (λ past done m. Inv m) (λ es past done m. Inv m) Inv-kept
        created ctl
        (record {
          tx_event = record { source = source; sink = sink; fired = false; log = [] };
          tx_queue = [];
          counters = zero_counters;
        })
        ts k tt refl refl
        (record { undropped = refl; signalled = construct-IsSignalled source sink h refl }) in
    (
      p,
      e,
      undropped-IsDelivered Event-IsSet d v.undropped,
      d.sent,
      d.received,
      v.undropped,
      v.signalled,
    )
