-- ===== src/App7.antt =====
-- app7.cpp: the queue is a std::list behind the proxy of inc/List.h.
use poc_event_manager.Prelude.{
  ◌+◌, ◌≡◌, refl, sym, true, false, map, inl, Option, some, ◌>>=◌, List, [], ◌∷◌, ◌++◌, ℤ, ◌==ℤ◌,
  minus_one, arith, length, append-nil,
}
use poc_event_manager.PipedEvent.Defs.{PipedEvent, construct, fire, consume}
use poc_event_manager.Event.{Event, event_a}
use poc_event_manager.Counters.{Counters, zero_counters, increment_rx, increment_tx}
use poc_event_manager.Wrapper.Defs.{Wrapper, call}
use poc_event_manager.Manager.Interface.{IManager, IsConserving}
use poc_event_manager.SelfLoop.Defs.{Turn, Program, start, run, rounds}
use poc_event_manager.SelfLoop.Correct.{main_ordered}

pub record ManagerA : Type 0 where
  pub tx_event : PipedEvent
  pub tx_queue : Wrapper (List Event)
  pub counters : Counters

abbrev pub new_manager : PipedEvent → ManagerA
new_manager e = record {
  tx_event = e;
  tx_queue = record { value = []; locked = false };
  counters = zero_counters;
}

-- `fds` is what `pipe` returned.
unfoldable pub manager_a : Option (ℤ × ℤ) → Option ManagerA
manager_a fds = construct fds >>= (λ e. some (new_manager e))

-- The draws are what the two calls of random_int_in_range return; the first event is thrown away.
unfoldable pub run_impl : ℤ × ℤ → ManagerA → Option ManagerA
run_impl draws m = do
  r ← call {R = Unit {0}} (λ q. (tt, q ++ event_a draws.1 ∷ [])) m.tx_queue
  some (record m { tx_queue = r.1; counters = increment_tx m.counters; tx_event = fire m.tx_event })

unfoldable pub consume_event : Event → ManagerA → ManagerA
consume_event e m = record m { counters = increment_rx m.counters }

-- Produce swaps the queue with its empty list, then resets the signal.
unfoldable pub produce : ManagerA → Option (List Event × ManagerA)
produce m = do
  r ← call (λ q. (q, [])) m.tx_queue
  some (r.0, record m { tx_queue = r.1; tx_event = consume m.tx_event })

abbrev pub manager_ops : IManager (ℤ × ℤ) Event ManagerA
manager_ops = record {
  get_sources = λ m. m.tx_event.source;
  pre_run_impl = λ m. m;
  run_impl = run_impl;
  consume = consume_event;
  produce = λ i m. produce m;
  thread_name = "ManagerA";
}

-- From the results of `pipe`, epoll_create1 and epoll_ctl, and a schedule.
unfoldable pub main : Option (ℤ × ℤ) → ℤ → ℤ → List (Turn (ℤ × ℤ)) → Option (Program ManagerA)
main fds created ctl ts =
    manager_a fds >>= (λ m. start manager_ops created ctl m >>= run manager_ops ts)

abbrev sent_to : ℤ × ℤ → ManagerA → ManagerA
sent_to draws m = record m {
  tx_queue = record { value = m.tx_queue.value ++ event_a draws.1 ∷ []; locked = false };
  counters = increment_tx m.counters;
  tx_event = fire m.tx_event;
}

abbrev emptied : ManagerA → ManagerA
emptied m = record m {
  tx_queue = record { value = []; locked = false };
  tx_event = consume m.tx_event;
}

unfoldable pub manager_laws : IsConserving manager_ops
unfolding run_impl consume_event produce call
manager_laws = record {
  IsValid = λ m. m.tx_queue.locked ≡ false;
  queued = λ m. m.tx_queue.value;
  counters = λ m. m.counters;
  offers = λ draws. event_a draws.1;
  run_lem = λ i m v. (sent_to i m, rw v, refl, inl (refl, refl));
  produce_lem =
      λ i m v. (m.tx_queue.value, emptied m, rw v, refl, sym (append-nil m.tx_queue.value), refl);
  consume_lem = λ e m v. (v, refl, refl);
  pre_run_lem = λ m. refl;
}

run_impl-undropped :
    (draws : ℤ × ℤ) (m m' : ManagerA)
    → m.tx_queue.locked ≡ false
    → run_impl draws m ≡ some m'
    → m'.counters.dropped ≡ m.counters.dropped
unfolding run_impl call
run_impl-undropped draws m m' v e = ground arith

-- If `pipe` and epoll_create1 succeeded, the program runs under every schedule without ever
-- blocking on the mutex. The events consumed, followed by those that wait, are all the events that
-- the calls of _runImpl made, in that order; they are as many as were counted as sent, the consumed
-- ones as many as were counted as received, and nothing was dropped.
pub main-unblocked :
    (source sink created ctl : ℤ) (ts : List (Turn (ℤ × ℤ)))
    → (created ==ℤ minus_one) ≡ false
    → (p : Program ManagerA) × (main (some (source, sink)) created ctl ts ≡ some p)
      × (p.consumed ++ p.manager.tx_queue.value
          ≡ map (λ draws. event_a draws.1) (rounds true false ts))
      × (p.manager.counters.tx ≡ length p.consumed + length p.manager.tx_queue.value)
      × (p.manager.counters.rx ≡ length p.consumed)
      × (p.manager.counters.dropped ≡ 0)
unfolding main manager_a construct manager_laws
main-unblocked source sink created ctl ts h =
    let (p, e, order, d, u) =
      main_ordered manager_ops manager_laws run_impl-undropped created ctl
        (new_manager (record { source = source; sink = sink; fired = false; log = [] })) ts h refl
        refl refl in
    (p, e, order, d.sent, d.received, u)
