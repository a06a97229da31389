-- ===== src/App4.antt =====
-- app4.cpp: a measurement without a mutex. The thread counts and fires but puts nothing into the
-- queue, and Produce takes nothing from it.
use poc_event_manager.Prelude.{
  ◌≡◌, refl, true, false, ◌∷◌, ◌++◌, arith, length, length-append, Option, some, ◌>>=◌, List, [], ℤ,
  ◌==ℤ◌, minus_one,
}
use poc_event_manager.PipedEvent.Defs.{PipedEvent, construct, fire, consume}
use poc_event_manager.Event.{Event}
use poc_event_manager.Counters.{Counters, zero_counters, increment_rx, increment_tx}
use poc_event_manager.Manager.Interface.{IManager}
use poc_event_manager.SelfLoop.Defs.{Turn, Program, start, run, rounds}
use poc_event_manager.SelfLoop.Invariant.{IsKept, main-keeps}

pub record ManagerA : Type 0 where
  pub tx_event : PipedEvent
  pub tx_queue : List Event
  pub counters : Counters

-- `fds` is what `pipe` returned.
unfoldable pub manager_a : Option (ℤ × ℤ) → Option ManagerA
manager_a fds =
    construct fds >>= (λ e. some (record { tx_event = e; tx_queue = []; counters = zero_counters }))

-- The event that is built from the draw is thrown away.
unfoldable pub run_impl : ℤ → ManagerA → ManagerA
run_impl draw m = record m { counters = increment_tx m.counters; tx_event = fire m.tx_event }

unfoldable pub consume_event : Event → ManagerA → ManagerA
consume_event e m = record m { counters = increment_rx m.counters }

unfoldable pub produce : ManagerA → List Event × ManagerA
produce m = ([], record m { tx_event = consume m.tx_event })

abbrev pub manager_ops : IManager ℤ Event ManagerA
manager_ops = record {
  get_sources = λ m. m.tx_event.source;
  pre_run_impl = λ m. m;
  run_impl = λ i m. some (run_impl i m);
  consume = consume_event;
  produce = λ i m. some (produce m);
  thread_name = "ManagerA";
}

-- From the results of `pipe`, epoll_create1 and epoll_ctl, and a schedule.
unfoldable pub main : Option (ℤ × ℤ) → ℤ → ℤ → List (Turn ℤ) → Option (Program ManagerA)
main fds created ctl ts =
    manager_a fds >>= (λ m. start manager_ops created ctl m >>= run manager_ops ts)

-- Every call of _runImpl was counted as a sent event, and none was queued or consumed.
record Inv (past : List ℤ) (done : List Event) (m : ManagerA) : Type 0 where
  counted : m.counters.tx ≡ length past
  unqueued : m.tx_queue ≡ []
  unconsumed : done ≡ []
  unreceived : m.counters.rx ≡ 0

record Mid (es : List Event) (past : List ℤ) (done : List Event) (m : ManagerA) : Type 0 where
  none_made : es ≡ []
  inv : Inv past done m

run_impl-Inv :
    (draw : ℤ) (past : List ℤ) (done : List Event) (m : ManagerA)
    → Inv past done m
    → Inv (past ++ draw ∷ []) done (run_impl draw m)
unfolding run_impl
run_impl-Inv draw past done m v = record {
  counted = omega (arith, v.counted, length-append past (draw ∷ []));
  unqueued = v.unqueued;
  unconsumed = v.unconsumed;
  unreceived = v.unreceived;
}

produce-Inv :
    (past : List ℤ) (done : List Event) (m : ManagerA)
    → Inv past done m
    → Inv past done (produce m).1
unfolding produce
produce-Inv past done m v = record {
  counted = v.counted;
  unqueued = v.unqueued;
  unconsumed = v.unconsumed;
  unreceived = v.unreceived;
}

Inv-kept : IsKept manager_ops Inv Mid
unfolding produce
Inv-kept = record {
  run_keeps = λ i past done m v. (run_impl i m, refl, run_impl-Inv i past done m v);
  produce_keeps = λ i past done m v.
      ([], (produce m).1, refl, record { none_made = refl; inv = produce-Inv past done m v });
  consume_keeps = λ e es past done m v. absurd (cc v.none_made);
  all_consumed = λ past done m v. v.inv;
  pre_run_keeps = λ m v. v;
}

-- However often the thread sends and the main loop is woken, no event ever arrives: if `pipe` and
-- epoll_create1 succeeded, the program runs under every schedule with no fault; every call of
-- _runImpl is counted as a sent event, while the queue stays empty, Consume is never called, and
-- the count of received events is 0.
pub main-delivers_nothing :
    (source sink created ctl : ℤ) (ts : List (Turn ℤ))
    → (created ==ℤ minus_one) ≡ false
    → (p : Program ManagerA) × (main (some (source, sink)) created ctl ts ≡ some p)
      × (p.manager.counters.tx ≡ length (rounds true false ts))
      × (p.manager.tx_queue ≡ [])
      × (p.consumed ≡ [])
      × (p.manager.counters.rx ≡ 0)
unfolding main manager_a construct
main-delivers_nothing source sink created ctl ts h =
    let (p, e, v) =
      main-keeps manager_ops Inv Mid Inv-kept created ctl
        (record {
          tx_event = record { source = source; sink = sink; fired = false; log = [] };
          tx_queue = [];
          counters = zero_counters;
        })
        ts h (record { counted = refl; unqueued = refl; unconsumed = refl; unreceived = refl }) in
    (p, e, v.counted, v.unqueued, v.unconsumed, v.unreceived)
