-- ===== src/Tests/Interleavings.antt =====
-- app1.cpp: Produce between the test of the length and the mutex.
use poc_event_manager.Prelude.{◌≡◌, ◌⊎◌, ◌+◌, ◌≤◌, refl, true, length, some, List, [], ◌∷◌, ℤ, pos}
use poc_event_manager.PipedEvent.Defs.{PipedEvent, consume}
use poc_event_manager.Event.{event_a}
use poc_event_manager.Counters.{zero_counters, increment_tx, increment_rx}
use poc_event_manager.App1.Lossless.{run-bounded}
use poc_event_manager.App1.{ManagerA, max_queue_size, consume_event}
use poc_event_manager.App1.Interleaving.{
  firing, resting, State, Action, thread_moves, main_moves, main_consumes, step, run, perform_all,
  calls, thread_step, main_step, consume_step,
}
use poc_event_manager.App1.Atomicity.{idle, run-perform_all}
use poc_event_manager.App1.Steps.{settled}

abbrev event : PipedEvent
event = record { source = pos 3; sink = pos 4; fired = true; log = [] }

-- One event waits.
abbrev manager : ManagerA
manager = record {
  tx_event = event;
  tx_queue = event_a (pos 1) ∷ [];
  counters = increment_tx zero_counters;
}

abbrev draws : ℤ × ℤ
draws = (pos 2, pos 5)

-- The thread tests, Produce takes the mutex and the list and lets go, and the thread goes on until it
-- is at Fire.
abbrev actions : List Action
actions =
    thread_moves draws
    ∷ main_moves
    ∷ main_moves
    ∷ main_moves
    ∷ main_moves
    ∷ main_consumes (event_a (pos 1))
    ∷ thread_moves draws
    ∷ thread_moves draws
    ∷ thread_moves draws
    ∷ []

abbrev reached : State
reached = record {
  thread_pc = firing;
  main_pc = resting;
  shared = record {
    manager = record {
      tx_event = consume event;
      tx_queue = event_a (pos 5) ∷ [];
      counters = increment_tx (increment_rx (increment_tx zero_counters));
    };
    locked = true;
    handed = event_a (pos 1) ∷ [];
  };
}

run-reached : run actions (idle manager) ≡ some reached
unfolding run step thread_step main_step consume_step consume_event
run-reached = refl

run-perform_all_example :
    (settled reached
      ≡ perform_all (calls actions (idle manager)) (record { manager = manager; handed = [] }))
    × (((u : State) × (step (thread_moves draws) reached ≡ some u))
        ⊎ ((u : State) × (step main_moves reached ≡ some u)))
run-perform_all_example = run-perform_all manager actions reached draws run-reached

-- From a new manager: Produce takes an empty list while the thread is about to append.
abbrev new_manager : ManagerA
new_manager = record { tx_event = event; tx_queue = []; counters = zero_counters }

abbrev half_way : State
half_way = record {
  thread_pc = firing;
  main_pc = resting;
  shared = record {
    manager = record {
      tx_event = consume event;
      tx_queue = event_a (pos 5) ∷ [];
      counters = increment_tx zero_counters;
    };
    locked = true;
    handed = [];
  };
}

abbrev first_actions : List Action
first_actions =
    thread_moves draws
    ∷ main_moves
    ∷ main_moves
    ∷ main_moves
    ∷ main_moves
    ∷ thread_moves draws
    ∷ thread_moves draws
    ∷ thread_moves draws
    ∷ []

run-half_way : run first_actions (idle new_manager) ≡ some half_way
unfolding run step thread_step main_step consume_step consume_event
run-half_way = refl

run-bounded_example :
    (length half_way.shared.manager.tx_queue ≤ max_queue_size + 1)
    × ((settled half_way).manager.counters.tx
        ≡ length (settled half_way).handed + length (settled half_way).manager.tx_queue)
run-bounded_example = run-bounded new_manager first_actions half_way refl refl run-half_way
