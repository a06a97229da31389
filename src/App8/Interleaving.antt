-- ===== src/App8/Interleaving.antt =====
-- _runImpl and Produce of app8.cpp as two threads that interleave, statement by statement. A
-- `try_lock` fails exactly where the mutex is locked, by either thread or since an earlier call;
-- that it may fail for no reason is left out here. Consume is called by the thread of Produce.
use poc_event_manager.Prelude.{
  true, false, Option, none, some, ◌>>=◌, List, [], ◌∷◌, ◌++◌, ℤ, if◌then◌else◌,
}
use poc_event_manager.PipedEvent.Defs.{PipedEvent, fire, consume}
use poc_event_manager.PipedEvent.Signalled.{is_nonempty}
use poc_event_manager.Event.{Event, event_a}
use poc_event_manager.Counters.{increment_tx, increment_dropped}
use poc_event_manager.App8.Defs.{ManagerA, new_manager, consume_event}

-- In _runImpl, with the number it drew.
pub data ThreadPc : Type 0 where
  outside : ThreadPc
  at_second : ℤ → ThreadPc  -- txMutex1.try_lock() has failed
  appending_first appending_second : ℤ → ThreadPc
  unlocking_first unlocking_second : ThreadPc
  dropping counting firing : ThreadPc

-- In Produce; `events` is its local list.
pub data MainPc : Type 0 where
  resting : MainPc
  testing_second swapping_second : MainPc  -- txMutex2 is locked
  at_first : MainPc  -- at txMutex1.try_lock()
  testing_first swapping_first : MainPc  -- txMutex1 is locked
  unlocking_second unlocking_first resetting : (events : List Event) → MainPc

-- What both threads see; the events that were put into a queue, and those that Produce returned,
-- so far, oldest first.
pub record Shared : Type 0 where
  pub manager : ManagerA
  pub accepted : List Event
  pub handed : List Event

pub record State : Type 0 where
  pub thread_pc : ThreadPc
  pub main_pc : MainPc
  pub shared : Shared

pub data Action : Type 0 where
  thread_moves : ℤ → Action  -- with the number for a call of _runImpl that starts here
  main_moves : Action
  main_consumes : Event → Action

abbrev with_manager : ManagerA → Shared → Shared
with_manager m s = record s { manager = m }

unfoldable pub thread_step : ThreadPc → ℤ → ManagerA → Shared → ThreadPc × Shared
thread_step outside x m s =
    if m.locked1
    then (at_second x, s)
    else (appending_first x, with_manager (record m { locked1 = true }) s)
thread_step (at_second x) _ m s =
    if m.locked2
    then (dropping, s)
    else (appending_second x, with_manager (record m { locked2 = true }) s)
thread_step (appending_first x) _ m s = (
  unlocking_first,
  record s {
    manager = record m { tx_queue1 = m.tx_queue1 ++ event_a x ∷ [] };
    accepted = s.accepted ++ event_a x ∷ [];
  },
)
thread_step (appending_second x) _ m s = (
  unlocking_second,
  record s {
    manager = record m { tx_queue2 = m.tx_queue2 ++ event_a x ∷ [] };
    accepted = s.accepted ++ event_a x ∷ [];
  },
)
thread_step unlocking_first _ m s = (counting, with_manager (record m { locked1 = false }) s)
thread_step unlocking_second _ m s = (counting, with_manager (record m { locked2 = false }) s)
thread_step dropping _ m s =
    (outside, with_manager (record m { counters = increment_dropped m.counters }) s)
thread_step counting _ m s =
    (firing, with_manager (record m { counters = increment_tx m.counters }) s)
thread_step firing _ m s = (outside, with_manager (record m { tx_event = fire m.tx_event }) s)

unfoldable pub main_step : MainPc → ManagerA → Shared → MainPc × Shared
main_step resting m s =
    if m.locked2
    then (at_first, s)
    else (testing_second, with_manager (record m { locked2 = true }) s)
main_step testing_second m s = (if is_nonempty m.tx_queue2 then swapping_second else at_first, s)
main_step swapping_second m s =
    (unlocking_second m.tx_queue2, with_manager (record m { tx_queue2 = [] }) s)
main_step (unlocking_second es) m s = (resetting es, with_manager (record m { locked2 = false }) s)
main_step at_first m s =
    if m.locked1
    then (resetting [], s)
    else (testing_first, with_manager (record m { locked1 = true }) s)
main_step testing_first m s = (if is_nonempty m.tx_queue1 then swapping_first else resetting [], s)
main_step swapping_first m s =
    (unlocking_first m.tx_queue1, with_manager (record m { tx_queue1 = [] }) s)
main_step (unlocking_first es) m s = (resetting es, with_manager (record m { locked1 = false }) s)
main_step (resetting es) m s = (
  resting,
  record s { manager = record m { tx_event = consume m.tx_event }; handed = s.handed ++ es },
)

-- Consume is called between two calls of Produce.
unfoldable pub consume_step : MainPc → Event → Shared → Option Shared
consume_step resting e s = some (with_manager (consume_event e s.manager) s)
consume_step _ _ _ = none

unfoldable pub step : Action → State → Option State
unfolding thread_step main_step consume_step
step (thread_moves x) s =
    let r = thread_step s.thread_pc x s.shared.manager s.shared in
    some (record s { thread_pc = r.0; shared = r.1 })
step main_moves s =
    let r = main_step s.main_pc s.shared.manager s.shared in
    some (record s { main_pc = r.0; shared = r.1 })
step (main_consumes e) s = do r ← consume_step s.main_pc e s.shared; some (record s { shared = r })

unfoldable pub run : List Action → State → Option State
run [] s = some s
run (a ∷ acts) s = step a s >>= run acts

abbrev pub fresh : PipedEvent → State
fresh e = record {
  thread_pc = outside;
  main_pc = resting;
  shared = record { manager = new_manager e; accepted = []; handed = [] };
}
