-- ===== src/Tests/Apps.antt =====
-- The applications, each run on a short schedule: the thread sends, and the main loop is woken on
-- the descriptor of the pipe and on one that it does not watch.
use poc_event_manager.Prelude.{
  ◌+◌, ◌≤◌, ◌≡◌, refl, true, false, some, ◌>>=◌, List, [], ◌∷◌, ◌++◌, map, count_if, Bool, ◌==ℤ◌, ℤ,
  pos, length, int_eq,
}
use poc_event_manager.PipedEvent.Defs.{PipedEvent, construct}
use poc_event_manager.PipedEvent.Signalled.{IsSignalled}
use poc_event_manager.Event.{Event, event_a, event_b}
use poc_event_manager.Counters.{zero_counters}
use poc_event_manager.Delivery.{IsDelivered, IsComplete}
use poc_event_manager.SelfLoop.Defs.{Turn, thread, wait, signal, Program, start, run, rounds}
use poc_event_manager.SelfLoop.Interleaved.{
  Move, thread_moves, main_moves, signalled, Moment, main_of, settled,
}
use poc_event_manager.SelfLoop.Calls.{moves-IsDelivered}
use poc_event_manager.SelfLoop.Settling.{main-refines}
use poc_event_manager.CallByCall.Commuting.{app3_commutes}
use poc_event_manager.CallByCall.Lists.{app1_sound, app3-IsComplete, app7-IsComplete}
use poc_event_manager.CallByCall.Queues.{
  app5_delivers, app6-IsComplete, app10_delivers, app11_delivers,
}
use poc_event_manager.CallByCall.Lossy.{app4_delivers_nothing, app8_balanced}
use poc_event_manager.App1
use poc_event_manager.App3
use poc_event_manager.App4
use poc_event_manager.App5
use poc_event_manager.App6
use poc_event_manager.App7
use poc_event_manager.App8.Defs
use poc_event_manager.App8.Leak.{produce-wedges}
use poc_event_manager.App8.Balance.{made}
use poc_event_manager.App10
use poc_event_manager.App11
use poc_event_manager.Tests.Queues.{reader_writer_list, atomic_list, spsc_list}

-- Three events, the second and third after a wake-up, then a signal.
abbrev turns : {In : Type 0} → In → List (Turn In)
turns i =
    thread i ∷ wait i (pos 3 ∷ pos 8 ∷ []) ∷ thread i ∷ thread i ∷ signal ∷ wait i (pos 3 ∷ []) ∷ []

-- Two events are sent and the loop is woken; a third is sent after Produce has returned the two and
-- before they are consumed, and the signal comes between the two calls of Consume.
abbrev acts : {In : Type 0} → In → List (Move In)
acts i =
    thread_moves i
    ∷ thread_moves i
    ∷ main_moves i (pos 3 ∷ pos 8 ∷ [])
    ∷ main_moves i []
    ∷ thread_moves i
    ∷ main_moves i []
    ∷ signalled
    ∷ main_moves i []
    ∷ main_moves i []
    ∷ []

abbrev draws : ℤ × ℤ
draws = (pos 2, pos 5)

abbrev new_event : PipedEvent
new_event = record { source = pos 3; sink = pos 4; fired = false; log = [] }

abbrev new_manager : App3.ManagerA
new_manager = record { tx_event = new_event; tx_queue = []; counters = zero_counters }

app1_sound_example :
    (s : Moment (ℤ × ℤ) App1.ManagerA) × (main_of App1.manager_ops
        (App1.manager_a (some (pos 3, pos 4)))
        (pos 5)
        (pos 0)
        (acts draws)
      ≡ some s)
    × IsDelivered
        (map (λ (d : ℤ × ℤ). event_a d.1) s.called)
        s.consumed
        (s.waiting ++ s.manager.tx_queue)
        s.manager.counters
    × (length s.manager.tx_queue ≤ App1.max_queue_size + 1)
    × IsSignalled s.manager.tx_event s.manager.tx_queue
app1_sound_example = app1_sound (pos 3) (pos 4) (pos 5) (pos 0) (acts draws) refl refl

app3-IsComplete_example :
    (s : Moment (ℤ × ℤ) App3.ManagerA) × (main_of App3.manager_ops
        (App3.manager_a (some (pos 3, pos 4)))
        (pos 5)
        (pos 0)
        (acts draws)
      ≡ some s)
    × IsComplete
        (map (λ (d : ℤ × ℤ). event_a d.1) s.called)
        s.consumed
        (s.waiting ++ s.manager.tx_queue)
        s.manager.counters
    × IsSignalled s.manager.tx_event s.manager.tx_queue
app3-IsComplete_example = app3-IsComplete (pos 3) (pos 4) (pos 5) (pos 0) (acts draws) refl refl

app7-IsComplete_example :
    (s : Moment (ℤ × ℤ) App7.ManagerA) × (main_of App7.manager_ops
        (App7.manager_a (some (pos 3, pos 4)))
        (pos 5)
        (pos 0)
        (acts draws)
      ≡ some s)
    × IsComplete
        (map (λ (d : ℤ × ℤ). event_a d.1) s.called)
        s.consumed
        (s.waiting ++ s.manager.tx_queue.value)
        s.manager.counters
app7-IsComplete_example = app7-IsComplete (pos 3) (pos 4) (pos 5) (pos 0) (acts draws) refl

app6-IsComplete_example :
    (s : Moment (ℤ × ℤ) App6.ManagerA) × (main_of App6.manager_ops
        (App6.manager_a (some (pos 3, pos 4)))
        (pos 5)
        (pos 0)
        (acts draws)
      ≡ some s)
    × IsComplete
        (map (λ (d : ℤ × ℤ). event_a d.1) s.called)
        s.consumed
        (s.waiting ++ App6.queued s.manager)
        s.manager.counters
app6-IsComplete_example = app6-IsComplete (pos 3) (pos 4) (pos 5) (pos 0) (acts draws) refl

app4_delivers_nothing_example :
    (s : Moment ℤ App4.ManagerA) × (main_of App4.manager_ops
        (App4.manager_a (some (pos 3, pos 4)))
        (pos 5)
        (pos 0)
        (acts (pos 2))
      ≡ some s)
    × (s.manager.counters.tx ≡ length s.called)
    × (s.manager.tx_queue ≡ [])
    × (s.consumed ≡ [])
    × (s.waiting ≡ [])
    × (s.manager.counters.rx ≡ 0)
app4_delivers_nothing_example =
    app4_delivers_nothing (pos 3) (pos 4) (pos 5) (pos 0) (acts (pos 2)) refl

app5_delivers_example :
    (s : Moment ℤ (App5.ManagerA (List Event))) × (main_of
        (App5.manager_ops reader_writer_list)
        (App5.manager_a reader_writer_list (some (pos 3, pos 4)))
        (pos 5)
        (pos 0)
        (acts (pos 2))
      ≡ some s)
    × IsDelivered
        (map event_a s.called)
        s.consumed
        (s.waiting ++ s.manager.tx_queue)
        s.manager.counters
app5_delivers_example =
    app5_delivers reader_writer_list (pos 3) (pos 4) (pos 5) (pos 0) (acts (pos 2)) refl

app10_delivers_example :
    (s : Moment ℤ (App10.ManagerA (List Event))) × (main_of
        (App10.manager_ops atomic_list)
        (App10.manager_a atomic_list (some (pos 3, pos 4)))
        (pos 5)
        (pos 0)
        (acts (pos 2))
      ≡ some s)
    × IsDelivered
        (map event_a s.called)
        s.consumed
        (s.waiting ++ s.manager.tx_queue)
        s.manager.counters
app10_delivers_example =
    app10_delivers atomic_list (pos 3) (pos 4) (pos 5) (pos 0) (acts (pos 2)) refl

app11_delivers_example :
    (s : Moment ℤ (App11.ManagerA (List Event))) × (main_of
        (App11.manager_ops spsc_list)
        (App11.manager_a spsc_list (some (pos 3, pos 4)))
        (pos 5)
        (pos 0)
        (acts (pos 2))
      ≡ some s)
    × IsDelivered
        (map event_a s.called)
        s.consumed
        (s.waiting ++ s.manager.tx_queue)
        s.manager.counters
app11_delivers_example =
    app11_delivers spsc_list (pos 3) (pos 4) (pos 5) (pos 0) (acts (pos 2)) refl

moves-IsDelivered_example :
    (s : Moment (ℤ × ℤ) App3.ManagerA) × (main_of App3.manager_ops
        (some new_manager)
        (pos 5)
        (pos 0)
        (acts draws)
      ≡ some s)
    × IsDelivered
        (map (λ (d : ℤ × ℤ). event_a d.1) s.called)
        s.consumed
        (s.waiting ++ s.manager.tx_queue)
        s.manager.counters
unfolding App3.manager_laws
moves-IsDelivered_example =
    moves-IsDelivered App3.manager_ops App3.manager_laws (pos 5) (pos 0) new_manager (acts draws)
      refl tt refl refl

app3_runs :
    (ts : List (Turn (ℤ × ℤ)))
    → (p : Program App3.ManagerA) × ((start App3.manager_ops (pos 5) (pos 0) new_manager
          >>= run App3.manager_ops ts)
        ≡ some p)
unfolding App3.main App3.manager_a construct
app3_runs ts =
    let r = App3.main-IsSignalled (pos 3) (pos 4) (pos 5) (pos 0) ts refl refl in (r.0, r.1)

main-refines_example :
    (s : Moment (ℤ × ℤ) App3.ManagerA) × (ts : List (Turn (ℤ × ℤ))) × (main_of App3.manager_ops
        (some new_manager)
        (pos 5)
        (pos 0)
        (acts draws)
      ≡ some s)
    × ((start App3.manager_ops (pos 5) (pos 0) new_manager >>= run App3.manager_ops ts)
        ≡ some (settled App3.manager_ops s))
    × (s.called ≡ rounds true false ts)
main-refines_example =
    main-refines App3.manager_ops app3_commutes (pos 5) (pos 0) new_manager app3_runs (acts draws)

-- The tries of app8.cpp, as they go when nobody holds the mutexes.
abbrev free_env : Defs.Env
free_env = record { draw = pos 2; busy1 = false; busy2 = false }

abbrev idle_manager : Defs.ManagerA
idle_manager = Defs.new_manager (record { source = pos 3; sink = pos 4; fired = false; log = [] })

-- No more events with the number 2 than were made.
abbrev is_two : Event → Bool
is_two (event_a x) = x ==ℤ pos 2
is_two (event_b x) = false

app8_balanced_example :
    (s : Moment Defs.Env Defs.ManagerA) × (main_of Defs.manager_ops
        (Defs.manager_a (some (pos 3, pos 4)))
        (pos 5)
        (pos 0)
        (acts free_env)
      ≡ some s)
    × (let p = settled Defs.manager_ops s in
        (count_if is_two p.consumed
            + count_if is_two p.manager.tx_queue1
            + count_if is_two p.manager.tx_queue2
          ≤ count_if is_two (made s.called))
        × (p.manager.counters.rx ≡ length p.consumed)
        × (p.manager.counters.tx
            ≡ length p.consumed + length p.manager.tx_queue1 + length p.manager.tx_queue2)
        × (p.manager.counters.tx + p.manager.counters.dropped ≡ length s.called))
app8_balanced_example = app8_balanced (pos 3) (pos 4) (pos 5) (pos 0) (acts free_env) is_two refl

produce-wedges_example :
    (p : Program Defs.ManagerA) × ((start Defs.manager_ops
          (pos 5)
          (pos 0)
          (Defs.produce free_env idle_manager).1
        >>= run Defs.manager_ops (turns free_env))
      ≡ some p)
    × (p.manager.locked1 ≡ true)
    × (p.manager.locked2 ≡ true)
    × (p.manager.tx_queue1 ≡ [])
    × (p.manager.tx_queue2 ≡ [])
    × (p.manager.counters.tx ≡ 0)
    × (p.manager.counters.rx ≡ 0)
produce-wedges_example =
    produce-wedges idle_manager free_env (pos 5) (pos 0) (turns free_env) refl refl refl refl refl
