-- ===== src/Tests/LockFree.antt =====
-- inc/LockeFreeQueue.h: two threads append, and swap meets a node that is not linked yet.
use poc_event_manager.Prelude.{◌>>=◌, ◌≡◌, refl, ℕ, none, some, List, [], ◌∷◌, update, arith, false}
use poc_event_manager.LockeFreeQueue.Defs.{
  idle, testing, taking, producer, consumer, State, init, exchange, link, move, producer_step,
  consumer_step, step, Reach, start, later,
}
use poc_event_manager.LockeFreeQueue.Calls.{IsQuiet, emplace_back, finish, swap}
use poc_event_manager.LockeFreeQueue.Fifo.{operate, operation, push, view, step-refines}
use poc_event_manager.LockeFreeQueue.Sequences.{
  Call, appends, swaps, run_calls, serve, waiting, run_calls-serve,
}
use poc_event_manager.LockeFreeQueue.Destroying.{destroy, destroy-frees_all}
use poc_event_manager.LockeFreeQueue.Correct.{step_total}

-- Threads 0 and 1 have exchanged the tail, and only thread 1 has linked its node.
abbrev unlinked : State ℕ
unlinked = link 1 2 1 (exchange 1 8 (exchange 0 7 init))

unlinked_reach : Reach unlinked
unfolding step producer_step
unlinked_reach =
    later (producer 1 8) (later (producer 1 8) (later (producer 0 7) start refl) refl) refl

step_total_example : (t : State ℕ) × (step (producer 0 9) unlinked ≡ some t)
step_total_example = step_total unlinked_reach (producer 0 9)

-- One event, appended and taken.
abbrev appended : State ℕ
appended = link 0 1 0 (exchange 0 7 init)

abbrev freed : State ℕ
freed = record appended { live = update appended.live 0 false; consumer_pc = taking 1 }

abbrev taken : State ℕ
taken = record (move 1 7 freed) { consumer_pc = testing 1 none }

taken_reach : Reach taken
unfolding step producer_step consumer_step
taken_reach =
    later consumer
      (later consumer
        (later consumer
          (later consumer
            (later consumer (later (producer 0 7) (later (producer 0 7) start refl) refl) refl)
            refl)
          refl)
        refl)
      refl

taken_idle : (i : ℕ) → taken.producer_pc i ≡ idle
taken_idle i = ground arith

appended-IsQuiet : IsQuiet appended
unfolding step producer_step
appended-IsQuiet = record {
  reach = later (producer 0 7) (later (producer 0 7) start refl) refl;
  producers = λ i. ground arith;
  consumer_out = refl;
}

destroy-frees_all_example :
    (t : State ℕ) × (destroy appended ≡ some t) × ((k : ℕ) → t.live k ≡ false)
destroy-frees_all_example = destroy-frees_all appended appended-IsQuiet

-- Two events appended by different threads come out in order.
swap_two :
    (emplace_back {T = ℕ} 0 7 init >>= emplace_back 1 8 >>= swap >>= (λ t. some t.received))
    ≡ some (7 ∷ 8 ∷ [])
unfolding emplace_back swap finish step producer_step consumer_step
swap_two = refl

-- The exchange of thread 2 appends behind the two others.
step-refines_example : operate (push 9) (view unlinked) ≡ some (view (exchange 2 9 unlinked))
unfolding step producer_step operation
step-refines_example = step-refines {s = unlinked} (producer 2 9) unlinked_reach refl

abbrev some_calls : List (Call ℕ)
some_calls = appends 0 8 ∷ swaps ∷ swaps ∷ appends 1 9 ∷ []

run_calls-serve_example :
    (t : State ℕ) × (run_calls some_calls appended ≡ some ((serve some_calls (7 ∷ [])).0, t))
    × IsQuiet t
    × (waiting t ≡ (serve some_calls (7 ∷ [])).1)
run_calls-serve_example = run_calls-serve some_calls appended (7 ∷ []) appended-IsQuiet refl

-- What a list gives for these calls.
queue_served : serve some_calls (7 ∷ []) ≡ ((7 ∷ 8 ∷ []) ∷ [] ∷ [], 9 ∷ [])
unfolding serve
queue_served = refl
