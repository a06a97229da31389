-- ===== src/Tests/TwoQueues.antt =====
-- app8.cpp: Produce disables the second queue while the first mutex is taken.
use poc_event_manager.Prelude.{◌≡◌, refl, true, false, some, List, [], ◌∷◌, ◌++◌, pos}
use poc_event_manager.PipedEvent.Defs.{PipedEvent, fire, consume}
use poc_event_manager.Event.{event_a}
use poc_event_manager.Counters.{zero_counters, increment_tx}
use poc_event_manager.App8.Interleaving.{
  State, Action, thread_moves, main_moves, dropping, fresh, thread_step, main_step, step, run,
}
use poc_event_manager.App8.Interleaving
use poc_event_manager.App8.Idle.{thread_has_second, takes_second, held, run-second_unused}

abbrev event : PipedEvent
event = record { source = pos 3; sink = pos 4; fired = false; log = [] }

-- The thread has the first mutex while Produce, which finds both queues empty, keeps the second.
-- Later Produce has the first one, and the thread gets neither.
abbrev actions : List Action
actions =
    thread_moves (pos 7)
    ∷ main_moves
    ∷ main_moves
    ∷ main_moves
    ∷ main_moves
    ∷ thread_moves (pos 0)
    ∷ thread_moves (pos 0)
    ∷ thread_moves (pos 0)
    ∷ thread_moves (pos 0)
    ∷ main_moves
    ∷ main_moves
    ∷ main_moves
    ∷ thread_moves (pos 8)
    ∷ thread_moves (pos 0)
    ∷ main_moves
    ∷ []

abbrev reached : State
reached = record {
  thread_pc = dropping;
  main_pc = Interleaving.unlocking_first (event_a (pos 7) ∷ []);
  shared = record {
    manager = record {
      tx_event = fire event;
      tx_queue1 = [];
      tx_queue2 = [];
      locked1 = true;
      locked2 = true;
      counters = increment_tx zero_counters;
    };
    accepted = event_a (pos 7) ∷ [];
    handed = [];
  };
}

run-reached : run actions (fresh event) ≡ some reached
unfolding run step thread_step main_step fire consume
run-reached = refl

run-second_unused_example :
    (reached.shared.manager.tx_queue2 ≡ [])
    × (thread_has_second reached.thread_pc ≡ false)
    × (takes_second reached.main_pc ≡ false)
    × (reached.shared.accepted
        ≡ reached.shared.handed ++ (held reached.main_pc ++ reached.shared.manager.tx_queue1))
run-second_unused_example = run-second_unused event actions reached run-reached
