-- ===== src/App1/Interleaving.antt =====
-- _runImpl and Produce of app1.cpp as two threads that interleave, statement by statement, with the
-- mutex; Consume is called by the thread of Produce.
use poc_event_manager.Prelude.{
  Bool, true, false, Option, none, some, ◌>>=◌, List, [], ◌∷◌, ◌++◌, ℤ, ltb, length, if◌then◌else◌,
}
use poc_event_manager.PipedEvent.Defs.{fire, consume}
use poc_event_manager.Event.{Event, event_a}
use poc_event_manager.Counters.{increment_tx, increment_dropped}
use poc_event_manager.App1.{ManagerA, max_queue_size, run_impl, consume_event, produce}

-- In _runImpl.
pub data ThreadPc : Type 0 where
  outside : ThreadPc
  dropping : ThreadPc  -- the list was too long: at IncrementCounter
  at_lock : ℤ × ℤ → ThreadPc  -- the list was not: at the lock_guard
  appending : ℤ × ℤ → ThreadPc
  counting firing unlocking : ThreadPc

-- In Produce; `events` is its local list.
pub data MainPc : Type 0 where
  resting swapping : MainPc
  resetting returning : (events : List Event) → MainPc

-- What both threads see, and what Produce has returned so far, oldest first.
pub record Shared : Type 0 where
  pub manager : ManagerA
  pub locked : Bool  -- txMutex
  pub handed : List Event

pub record State : Type 0 where
  pub thread_pc : ThreadPc
  pub main_pc : MainPc
  pub shared : Shared

pub data Action : Type 0 where
  thread_moves : ℤ × ℤ → Action  -- the draws are for a call of _runImpl that starts here
  main_moves : Action
  main_consumes : Event → Action

abbrev with_queue : List Event → Shared → Shared
with_queue es s = record s { manager = record (s.manager) { tx_queue = es } }

-- `none`: the mutex is taken.
unfoldable pub thread_step : ThreadPc → ℤ × ℤ → Shared → Option (ThreadPc × Shared)
thread_step outside draws s =
    some (if ltb max_queue_size (length s.manager.tx_queue) then dropping else at_lock draws, s)
thread_step dropping _ s = some (
  outside,
  record s { manager = record (s.manager) { counters = increment_dropped s.manager.counters } },
)
thread_step (at_lock draws) _ s =
    if s.locked then none else some (appending draws, record s { locked = true })
thread_step (appending draws) _ s =
    some (counting, with_queue (s.manager.tx_queue ++ event_a draws.1 ∷ []) s)
thread_step counting _ s = some (
  firing,
  record s { manager = record (s.manager) { counters = increment_tx s.manager.counters } },
)
thread_step firing _ s =
    some
      (unlocking, record s { manager = record (s.manager) { tx_event = fire s.manager.tx_event } })
thread_step unlocking _ s = some (outside, record s { locked = false })

unfoldable pub main_step : MainPc → Shared → Option (MainPc × Shared)
main_step resting s = if s.locked then none else some (swapping, record s { locked = true })
main_step swapping s = some (resetting s.manager.tx_queue, with_queue [] s)
main_step (resetting es) s = some (
  returning es,
  record s { manager = record (s.manager) { tx_event = consume s.manager.tx_event } },
)
main_step (returning es) s = some (resting, record s { locked = false; handed = s.handed ++ es })

-- Consume is called between two calls of Produce.
unfoldable pub consume_step : MainPc → Event → Shared → Option Shared
consume_step resting e s = some (record s { manager = consume_event e s.manager })
consume_step _ _ _ = none

unfoldable pub step : Action → State → Option State
unfolding thread_step main_step consume_step
step (thread_moves draws) s = do
  r ← thread_step s.thread_pc draws s.shared
  some (record s { thread_pc = r.0; shared = r.1 })
step main_moves s = do
  r ← main_step s.main_pc s.shared
  some (record s { main_pc = r.0; shared = r.1 })
step (main_consumes e) s = do r ← consume_step s.main_pc e s.shared; some (record s { shared = r })

unfoldable pub run : List Action → State → Option State
run [] s = some s
run (a ∷ acts) s = step a s >>= run acts

-- The same manager, called by one thread.
pub record Serial : Type 0 where
  pub manager : ManagerA
  pub handed : List Event

pub data Call : Type 0 where
  runs : ℤ × ℤ → Call
  produces : Call
  consumes : Event → Call

unfoldable pub perform : Call → Serial → Serial
perform (runs draws) s = record s { manager = run_impl draws s.manager }
perform produces s = record {
  manager = (produce s.manager).1;
  handed = s.handed ++ (produce s.manager).0;
}
perform (consumes e) s = record s { manager = consume_event e s.manager }

unfoldable pub perform_all : List Call → Serial → Serial
perform_all [] s = s
perform_all (c ∷ cs) s = perform_all cs (perform c s)

-- Where a call takes effect: _runImpl where it finds the list too long, or else where it takes the
-- mutex; Produce where it takes the list.
unfoldable pub thread_begins : ThreadPc → ℤ × ℤ → Shared → List Call
thread_begins outside draws s =
    if ltb max_queue_size (length s.manager.tx_queue) then runs draws ∷ [] else []
thread_begins (at_lock draws) _ s = runs draws ∷ []
thread_begins _ _ _ = []

unfoldable pub main_begins : MainPc → List Call
main_begins swapping = produces ∷ []
main_begins _ = []

unfoldable pub begins : Action → State → List Call
unfolding thread_begins main_begins
begins (thread_moves draws) s = thread_begins s.thread_pc draws s.shared
begins main_moves s = main_begins s.main_pc
begins (main_consumes e) s = consumes e ∷ []

-- The calls of a run, in the order in which they take effect.
unfoldable pub calls : List Action → State → List Call
calls [] s = []
calls (a ∷ acts) s = begins a s ++ elim (step a s) [ none ↦ [] | some t ↦ calls acts t ]
