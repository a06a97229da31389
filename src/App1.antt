-- ===== src/App1.antt =====
-- app1.cpp: the queue is a std::list under a mutex, and the thread stops filling it at a limit.
pub mod Interleaving
pub mod Steps
pub mod Atomicity
pub mod Lossless
use poc_event_manager.Prelude.{
  ℕ, ◌+◌, ◌≤◌, ◌≡◌, refl, Option, some, ◌>>=◌, List, [], ◌∷◌, ◌++◌, ℤ, pos, ◌==ℤ◌, minus_one, true,
  false, map, ◌⊎◌, inl, inr, Bool-cases, ltb, if◌then◌else◌, arith, length, length-append, sym,
  append-nil,
}
use poc_event_manager.PipedEvent.Defs.{PipedEvent, construct, fire, consume}
use poc_event_manager.PipedEvent.Signalled.{
  IsSignalled, construct-IsSignalled, fire-IsSignalled, consume-IsSignalled,
}
use poc_event_manager.Event.{Event, event_a}
use poc_event_manager.Counters.{
  Counters, zero_counters, increment_rx, increment_tx, increment_dropped,
}
use poc_event_manager.Delivery.{IsDelivered}
use poc_event_manager.Manager.Interface.{IManager, IsConserving}
use poc_event_manager.SelfLoop.Defs.{Turn, Program, start, run, rounds}
use poc_event_manager.SelfLoop.Invariant.{IsKept}
use poc_event_manager.SelfLoop.Correct.{main_lem}

abbrev pub max_queue_size : ℕ
max_queue_size = 5000

-- The members that some method reads. The mutex is held from the emplace to the end of _runImpl and
-- throughout Produce, so each call is one step. The size is read before the mutex is taken; App1.Interleaving
-- has the calls statement by statement.
pub record ManagerA : Type 0 where
  pub tx_event : PipedEvent
  pub tx_queue : List Event
  pub counters : Counters

-- `fds` is what `pipe` returned.
unfoldable pub manager_a : Option (ℤ × ℤ) → Option ManagerA
manager_a fds =
    construct fds >>= (λ e. some (record { tx_event = e; tx_queue = []; counters = zero_counters }))

-- The draws are what the two calls of random_int_in_range return; the first event is thrown away.
unfoldable pub run_impl : ℤ × ℤ → ManagerA → ManagerA
run_impl draws m =
    if ltb max_queue_size (length m.tx_queue)
    then record m { counters = increment_dropped m.counters }
    else record m {
      tx_queue = m.tx_queue ++ event_a draws.1 ∷ [];
      counters = increment_tx m.counters;
      tx_event = fire m.tx_event;
    }

unfoldable pub consume_event : Event → ManagerA → ManagerA
consume_event e m = record m { counters = increment_rx m.counters }

unfoldable pub produce : ManagerA → List Event × ManagerA
produce m = (m.tx_queue, record m { tx_queue = []; tx_event = consume m.tx_event })

abbrev pub manager_ops : IManager (ℤ × ℤ) Event ManagerA
manager_ops = record {
  get_sources = λ m. m.tx_event.source;
  pre_run_impl = λ m. m;
  run_impl = λ i m. some (run_impl i m);
  consume = consume_event;
  produce = λ i m. some (produce m);
  thread_name = "ManagerA";
}

-- From the results of `pipe`, epoll_create1 and epoll_ctl, and a schedule.
unfoldable pub main : Option (ℤ × ℤ) → ℤ → ℤ → List (Turn (ℤ × ℤ)) → Option (Program ManagerA)
main fds created ctl ts =
    manager_a fds >>= (λ m. start manager_ops created ctl m >>= run manager_ops ts)

pub run_lem :
    (draws : ℤ × ℤ) (m : ManagerA)
    → (((run_impl draws m).tx_queue ≡ m.tx_queue ++ event_a draws.1 ∷ [])
        × ((run_impl draws m).counters ≡ increment_tx m.counters))
      ⊎ (((run_impl draws m).tx_queue ≡ m.tx_queue)
          × ((run_impl draws m).counters ≡ increment_dropped m.counters))
unfolding run_impl
run_lem draws m = elim (Bool-cases (ltb max_queue_size (length m.tx_queue))) [
  | inl e ↦ inr (rw e refl, rw e refl)
  | inr e ↦ inl (rw e refl, rw e refl)
]

unfoldable pub manager_laws : IsConserving manager_ops
unfolding consume_event produce
manager_laws = record {
  IsValid = λ m. Unit {0};
  queued = λ m. m.tx_queue;
  counters = λ m. m.counters;
  offers = λ draws. event_a draws.1;
  run_lem = λ i m v. (run_impl i m, refl, tt, run_lem i m);
  produce_lem = λ i m v. (m.tx_queue, (produce m).1, refl, tt, sym (append-nil m.tx_queue), refl);
  consume_lem = λ e m v. (tt, refl, refl);
  pre_run_lem = λ m. refl;
}

-- The queue has one place more than the limit says, since the test asks for a length above it; and
-- the event is fired exactly while something is queued.
record Inv (m : ManagerA) : Type 0 where
  bounded : length m.tx_queue ≤ max_queue_size + 1
  signalled : IsSignalled m.tx_event m.tx_queue

run_impl-Inv : (draws : ℤ × ℤ) (m : ManagerA) → Inv m → Inv (run_impl draws m)
unfolding run_impl
run_impl-Inv draws m v = ground (
  arith,
  length-append m.tx_queue (event_a draws.1 ∷ []),
  fire-IsSignalled m.tx_event m.tx_queue (event_a draws.1) v.signalled,
)

Inv-kept : IsKept manager_ops (λ past done m. Inv m) (λ es past done m. Inv m)
unfolding consume_event produce
Inv-kept = record {
  run_keeps = λ i past done m v. (run_impl i m, refl, run_impl-Inv i m v);
  consume_keeps = λ e es past done m v. record { bounded = v.bounded; signalled = v.signalled };
  produce_keeps = λ i past done m v. (
    m.tx_queue,
    (produce m).1,
    refl,
    record {
      bounded = omega arith;
      signalled = consume-IsSignalled m.tx_event m.tx_queue v.signalled;
    },
  );
  all_consumed = λ past done m v. v;
  pre_run_keeps = λ m v. v;
}

-- If `pipe` gave a source other than descriptor 0 and epoll_create1 succeeded, the program runs
-- under every schedule with no fault. The events consumed, followed by those that wait, are a
-- subsequence of the events that the calls of _runImpl made; the consumed ones are as many as were
-- counted as received, both together as many as were counted as sent, and all that were made as
-- many as were counted as sent or dropped. The queue never holds more than one event above
-- MAX_QUEUE_SIZE, and the pipe holds one byte exactly while something is queued.
pub main_sound :
    (source sink created ctl : ℤ) (ts : List (Turn (ℤ × ℤ)))
    → (source ==ℤ pos 0) ≡ false
    → (created ==ℤ minus_one) ≡ false
    → (p : Program ManagerA) × (main (some (source, sink)) created ctl ts ≡ some p)
      × IsDelivered
          (map (λ draws. event_a draws.1) (rounds true false ts))
          p.consumed
          p.manager.tx_queue
          p.manager.counters
      × (length p.manager.tx_queue ≤ max_queue_size + 1)
      × IsSignalled p.manager.tx_event p.manager.tx_queue
unfolding main manager_a construct manager_laws
main_sound source sink created ctl ts h k =
    let (p, e, b, v) =
      main_lem manager_ops manager_laws (λ past done m. Inv m) (λ es past done m. Inv m) Inv-kept
        created ctl
        (record {
          tx_event = record { source = source; sink = sink; fired = false; log = [] };
          tx_queue = [];
          counters = zero_counters;
        })
        ts k tt refl refl
        (record { bounded = omega arith; signalled = construct-IsSignalled source sink h refl }) in
    (p, e, b, v.bounded, v.signalled)
