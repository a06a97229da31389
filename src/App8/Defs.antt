-- ===== src/App8/Defs.antt =====
-- The manager and `main` of app8.cpp. To try a mutex that the same thread left locked is undefined
-- in C++; here, as in practice, the try fails. A mutex that a call leaves locked stays so in the
-- state; whether another thread holds it at the moment, or `try_lock` fails for no reason, comes
-- with the call. Any such outcome is allowed here, also one that no other thread can bring about;
-- in App8/Interleaving the holders are in the state.
use poc_event_manager.Prelude.{
  Bool, true, false, not, ◌&&◌, Option, some, ◌>>=◌, List, [], ◌∷◌, ◌++◌, ℤ, if◌then◌else◌,
}
use poc_event_manager.PipedEvent.Defs.{PipedEvent, construct, fire, consume}
use poc_event_manager.PipedEvent.Signalled.{is_nonempty}
use poc_event_manager.Event.{Event, event_a}
use poc_event_manager.Counters.{
  Counters, zero_counters, increment_rx, increment_tx, increment_dropped,
}
use poc_event_manager.Manager.Interface.{IManager}
use poc_event_manager.SelfLoop.Defs.{Turn, Program, start, run}

pub record ManagerA : Type 0 where
  pub tx_event : PipedEvent
  pub tx_queue1 : List Event
  pub tx_queue2 : List Event
  pub locked1 : Bool  -- txMutex1
  pub locked2 : Bool  -- txMutex2
  pub counters : Counters

pub record Env : Type 0 where
  pub draw : ℤ  -- what random_int_in_range returns
  pub busy1 : Bool
  pub busy2 : Bool

abbrev pub new_manager : PipedEvent → ManagerA
new_manager e = record {
  tx_event = e;
  tx_queue1 = [];
  tx_queue2 = [];
  locked1 = false;
  locked2 = false;
  counters = zero_counters;
}

-- `fds` is what `pipe` returned.
unfoldable pub manager_a : Option (ℤ × ℤ) → Option ManagerA
manager_a fds = construct fds >>= (λ e. some (new_manager e))

abbrev pub try_lock1 : Env → ManagerA → Bool
try_lock1 env m = not m.locked1 && not env.busy1

abbrev pub try_lock2 : Env → ManagerA → Bool
try_lock2 env m = not m.locked2 && not env.busy2

abbrev pub sent : ManagerA → ManagerA
sent m = record m { counters = increment_tx m.counters; tx_event = fire m.tx_event }

-- A mutex that was tried with success here is unlocked again at once.
unfoldable pub run_impl : Env → ManagerA → ManagerA
run_impl env m =
    if try_lock1 env m
    then sent (record m { tx_queue1 = m.tx_queue1 ++ event_a env.draw ∷ [] })
    else if try_lock2 env m
    then sent (record m { tx_queue2 = m.tx_queue2 ++ event_a env.draw ∷ [] })
    else record m { counters = increment_dropped m.counters }

unfoldable pub consume_event : Event → ManagerA → ManagerA
consume_event e m = record m { counters = increment_rx m.counters }

-- The second half of the test, `txMutex1.try_lock() && !txQueue1.empty()`, and its branch. Where
-- the mutex is taken and the queue is empty, nothing unlocks it.
unfoldable pub take_first : Env → ManagerA → List Event × ManagerA
take_first env m =
    if try_lock1 env m
    then (if is_nonempty m.tx_queue1
        then (m.tx_queue1, record m { tx_queue1 = [] })
        else ([], record m { locked1 = true }))
    else ([], m)

unfoldable pub take_second : Env → ManagerA → List Event × ManagerA
unfolding take_first
take_second env m =
    if try_lock2 env m
    then (if is_nonempty m.tx_queue2
        then (m.tx_queue2, record m { tx_queue2 = [] })
        else take_first env (record m { locked2 = true }))
    else take_first env m

unfoldable pub produce : Env → ManagerA → List Event × ManagerA
unfolding take_second
produce env m = let r = take_second env m in (r.0, record r.1 { tx_event = consume r.1.tx_event })

abbrev pub manager_ops : IManager Env Event ManagerA
manager_ops = record {
  get_sources = λ m. m.tx_event.source;
  pre_run_impl = λ m. m;
  run_impl = λ i m. some (run_impl i m);
  consume = consume_event;
  produce = λ i m. some (produce i m);
  thread_name = "ManagerA";
}

-- From the results of `pipe`, epoll_create1 and epoll_ctl, and a schedule.
unfoldable pub main : Option (ℤ × ℤ) → ℤ → ℤ → List (Turn Env) → Option (Program ManagerA)
main fds created ctl ts =
    manager_a fds >>= (λ m. start manager_ops created ctl m >>= run manager_ops ts)
