-- ===== src/Tests/Signals.antt =====
-- inc/AutoId.h, inc/PipedEvent.h, inc/IManager.h and inc/List.h: runs and examples.
use poc_event_manager.Prelude.{
  ◌⊎◌, ◌≢◌, ℕ, ◌+◌, ◌≤◌, ◌<◌, ◌≡◌, refl, true, false, none, some, List, [], ◌∷◌, ◌++◌, pos, arith,
  to_ℕ, length, Bool,
}
use poc_event_manager.AutoId.Defs.{construct as construct_id, construct_all}
use poc_event_manager.AutoId.Distinct.{get_auto_id-distinct}
use poc_event_manager.PipedEvent.Defs.{
  write_byte, read_byte, close_fd, PipedEvent, construct, fire, consume, close_sink,
}
use poc_event_manager.PipedEvent.Pending.{fires, consumes, apply, run, writes, reads, run-pending}
use poc_event_manager.PipedEvent.Closing.{Use, closes_source, closes_sink}
use poc_event_manager.PipedEvent.Closing
use poc_event_manager.Handoff.Defs.{
  Order, signal_first, drain_first, Actor, producer, consumer, State, Reach, Reach-run, here, idle,
  waiting, reading, pushed, testing, stored, step, init,
}
use poc_event_manager.Handoff.Defs
use poc_event_manager.Handoff.Draining.{turns}
use poc_event_manager.Handoff.Arrival.{turns-settles}
use poc_event_manager.Handoff.Wakeup.{no_lost_wakeup, pipe_bounds, lost_wakeup}
use poc_event_manager.Manager.Lifecycle.{Life, fresh, Action, runs, stops, joins, moves, joining}
use poc_event_manager.Manager.Lifecycle
use poc_event_manager.Manager.Halting.{bodies, run-after_stop}
use poc_event_manager.Manager.Stopping.{HasStopped, stop_returns}
use poc_event_manager.Wrapper.Defs.{Wrapper, arrow, call}
use poc_event_manager.Wrapper.Calls.{call_all, call_all-apply_all, call-while_held}
use poc_event_manager.Wrapper.Exclusion.{System, Reach as WrapperReach, mutual_exclusion}
use poc_event_manager.Wrapper.Exclusion

abbrev opened : PipedEvent
opened = record { source = pos 3; sink = pos 4; fired = false; log = [] }

-- Two calls of Fire write one byte.
fire_twice :
    (run (fires ∷ fires ∷ consumes ∷ []) opened).log ≡ read_byte (pos 3) ∷ write_byte (pos 4) ∷ []
unfolding run apply fire consume
fire_twice = refl

-- After CloseSink the byte of Fire goes to descriptor 0.
fire_closed : (fire (close_sink (pos 0) opened).1).log ≡ write_byte (pos 0) ∷ close_fd (pos 4) ∷ []
unfolding fire close_sink
fire_closed = refl

run-pending_example :
    writes (run (fires ∷ fires ∷ []) opened).log
    ≡ reads (run (fires ∷ fires ∷ []) opened).log + to_ℕ (run (fires ∷ fires ∷ []) opened).fired
unfolding construct
run-pending_example = run-pending (pos 3, pos 4) opened (fires ∷ fires ∷ []) refl

-- Closed early, then fired and consumed.
abbrev some_uses : List Use
some_uses = Closing.fires ∷ closes_sink ∷ Closing.consumes ∷ Closing.fires ∷ closes_source ∷ []

-- At the wrap-around of the counter.
get_auto_id-distinct_example : ◌≡◌ {A = ℕ} 1 1
unfolding construct_all construct_id
get_auto_id-distinct_example =
    get_auto_id-distinct 3 4294967295 1 1 (record { id = 0 }) (record { id = 0 }) (omega arith)
      (omega arith) refl refl refl

-- One event is queued, the byte is written, the main thread sleeps.
abbrev one_event : List (Actor ℕ)
one_event = producer 7 ∷ producer 7 ∷ producer 7 ∷ producer 7 ∷ []

abbrev one_queued : State ℕ
one_queued = record {
  producer_pc = idle;
  consumer_pc = waiting;
  queue = 7 ∷ [];
  fired = true;
  pending = 1;
  sent = 7 ∷ [];
  received = [];
}

one_queued_reach : (o : Order) → Reach o one_queued
unfolding Defs.run step
one_queued_reach o = Reach-run o one_event here refl

no_lost_wakeup_example :
    (0 < one_queued.pending) × ((t : State ℕ) × (step signal_first consumer one_queued ≡ some t))
no_lost_wakeup_example = no_lost_wakeup (one_queued_reach signal_first) refl refl (λ e. cc e)

pipe_bounds_example :
    (one_queued.pending ≤ 1)
    × ((0 < one_queued.pending)
        ⊎ ((one_queued.consumer_pc ≢ reading) ⊎ (one_queued.producer_pc ≡ stored)))
pipe_bounds_example = pipe_bounds drain_first (one_queued_reach drain_first)

turns-settles_example :
    (n : ℕ) × (t : State ℕ) × (n ≤ 7)
    × (turns n one_queued ≡ some t)
    × (t.received ≡ 7 ∷ [])
    × (t.queue ≡ [])
    × (t.consumer_pc ≡ waiting)
    × (t.pending ≡ 0)
turns-settles_example = turns-settles (one_queued_reach signal_first) refl

lost_wakeup_example :
    (s : State ℕ) × Reach drain_first s
    × (s.queue ≡ 2 ∷ [])
    × (s.producer_pc ≡ idle)
    × (s.consumer_pc ≡ waiting)
    × (step drain_first consumer s ≡ none)
lost_wakeup_example = lost_wakeup 1 2

-- The thread's test has seen true when Stop clears the flag.
abbrev stopping : Life
stopping = record {
  running = false;
  joinable = true;
  thread_pc = Lifecycle.at_call;
  main_pc = joining;
  calls = Lifecycle.pre_run ∷ [];
}

stopping_reach : Lifecycle.Reach stopping
unfolding Lifecycle.step
stopping_reach =
    Lifecycle.next stops
      (Lifecycle.next moves (Lifecycle.next moves (Lifecycle.next runs Lifecycle.start refl) refl)
        refl)
      refl

stop_returns_example :
    (acts : List Action) × (k : Life) × (length acts ≤ 3)
    × (Lifecycle.run (acts ++ joins ∷ []) stopping ≡ some k)
    × HasStopped k
stop_returns_example = stop_returns stopping_reach refl

abbrev stopped : Life
stopped = record {
  running = false;
  joinable = false;
  thread_pc = Lifecycle.finished;
  main_pc = Lifecycle.free;
  calls = Lifecycle.run_body ∷ Lifecycle.pre_run ∷ [];
}

run-after_stop_example :
    (◌≡◌ {A = Bool} false false)
    × (bodies stopped.calls + 0 ≡ bodies stopping.calls + 1)
    × (bodies stopping.calls ≤ bodies stopped.calls)
    × (bodies stopped.calls ≤ bodies stopping.calls + 1)
unfolding Lifecycle.run Lifecycle.step
run-after_stop_example =
    run-after_stop (moves ∷ moves ∷ moves ∷ joins ∷ []) stopped stopping_reach refl refl

abbrev numbers : Wrapper (List ℕ)
numbers = record { value = 1 ∷ []; locked = false }

abbrev push_two : List ℕ → Unit {0} × List ℕ
push_two l = (tt, l ++ 2 ∷ [])

call_all-apply_all_example :
    call_all (push_two ∷ push_two ∷ []) numbers
    ≡ some (record { value = 1 ∷ 2 ∷ 2 ∷ []; locked = false })
call_all-apply_all_example = call_all-apply_all (push_two ∷ push_two ∷ []) numbers refl

call-while_held_example : call push_two (record { value = 1 ∷ []; locked = true }) ≡ none
unfolding arrow
call-while_held_example =
    call-while_held numbers (record { value = 1 ∷ []; locked = true }) push_two refl

-- Thread 4 has a proxy.
mutual_exclusion_example : ◌≡◌ {A = ℕ} 4 4
unfolding arrow
mutual_exclusion_example =
    mutual_exclusion {T = List ℕ} {x = 1 ∷ []}
      (Exclusion.later Exclusion.start (Exclusion.enters 4 refl refl)) 4 4 refl refl
