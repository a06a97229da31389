-- ===== src/Tests/Router.antt =====
-- app12: a run with the three managers.
use poc_event_manager.Prelude.{
  All, count_if, ℕ, zero, suc, ◌+◌, ◌≡◌, refl, true, false, Option, none, some, ◌>>=◌, List, [],
  ◌∷◌, map, length, pos, lookup, insert,
}
use poc_event_manager.PipedEvent.Defs.{PipedEvent, fire, consume}
use poc_event_manager.Queues.Drain.{drain}
use poc_event_manager.App12.Events.{Event, clone}
use poc_event_manager.App12.Managers.{
  serial_message, status_message, control_message, send, run_impl_a, run_impl_b, run_impl_c,
  consume_event, produce,
}
use poc_event_manager.App12.Main.{
  Ref, ref_a, ref_b, ref_c, System, Controls, manager_of, members, assemble, build, start, wire,
  producing, run_thread,
}
use poc_event_manager.App12.Router.{
  EventRouter, reported, failed, construct as construct_router, add_producer, add_consumer,
  route_events, offer,
}
use poc_event_manager.App12.Deliveries.{deliver, deliveries, route_events-deliveries}
use poc_event_manager.App12.Wiring.{IsWired}
use poc_event_manager.App12.Routing.{
  accepts, HasIds, receiver, members-IsStable, route_events-receiver,
}
use poc_event_manager.App12.Effects.{arrived, is_ref}
use poc_event_manager.App12.Offers.{Offer, offers, take_producer, take_fd}
use poc_event_manager.App12.Calls.{Wait, main}
use poc_event_manager.App12.Arrivals.{calls-route}
use poc_event_manager.App12.Owing.{owed}
use poc_event_manager.Loop.Calls.{
  Move, thread_moves, main_moves, signalled, Moment, main_move, move, moves,
}
use poc_event_manager.Tests.Queues.{spsc_list}

abbrev good : Controls
good = record { ctl_a = pos 0; ctl_b = pos 0; ctl_c = pos 0 }

-- The loop makes so many calls that need no report.
abbrev calls_of_main : ℕ → List (Move Ref Wait) → List (Move Ref Wait)
calls_of_main zero rest = rest
calls_of_main (suc n) rest = main_moves (failed, true) ∷ calls_of_main n rest

-- A sends STATUS, then SERIAL; B and C send; everything is routed.
abbrev schedule : List (Move Ref Wait)
schedule =
    thread_moves ref_a
    ∷ thread_moves ref_a
    ∷ thread_moves ref_b
    ∷ main_moves (reported (pos 3 ∷ pos 5 ∷ []), false)
    ∷ calls_of_main 4 (
        thread_moves ref_c
        ∷ calls_of_main 3
            (main_moves (reported (pos 7 ∷ []), false) ∷ calls_of_main 2 (signalled ∷ [])))

abbrev run_main : Option (Moment Ref (Offer Ref Ref) (System (List Event)))
run_main =
    main spsc_list (some (pos 3, pos 4)) (some (pos 5, pos 6)) (some (pos 7, pos 8)) (pos 9) good
      schedule

consumed_of : Ref → Option (List Event)
unfolding main build start wire producing add_producer add_consumer lookup insert construct_router
    moves move main_move take_fd take_producer offers run_thread run_impl_a run_impl_b run_impl_c
    send fire consume offer clone consume_event produce drain
consumed_of q = run_main >>= (λ m. some (manager_of q m.system).consumed)

-- Nobody gets an own event back, and each event goes where it is wanted.
deliveries_of_a : consumed_of ref_a ≡ some (serial_message ∷ control_message ∷ [])
unfolding consumed_of
deliveries_of_a = refl

deliveries_of_b : consumed_of ref_b ≡ some (serial_message ∷ [])
unfolding consumed_of
deliveries_of_b = refl

deliveries_of_c : consumed_of ref_c ≡ some (status_message ∷ [])
unfolding consumed_of
deliveries_of_c = refl

-- ManagerB sends between the Produce of ManagerA and the offers of its events; of those of ManagerB
-- one offer is left when the signal comes.
abbrev calls : List (Move Ref Wait)
calls =
    thread_moves ref_a
    ∷ thread_moves ref_a
    ∷ main_moves (reported (pos 3 ∷ pos 5 ∷ []), false)
    ∷ main_moves (failed, true)
    ∷ thread_moves ref_b
    ∷ main_moves (failed, true)
    ∷ main_moves (failed, true)
    ∷ main_moves (failed, true)
    ∷ main_moves (failed, true)
    ∷ main_moves (failed, true)
    ∷ signalled
    ∷ []

calls-route_example :
    (m : Moment Ref (Offer Ref Ref) (System (List Event))) × (main spsc_list
        (some (pos 3, pos 4))
        (some (pos 5, pos 6))
        (some (pos 7, pos 8))
        (pos 9)
        good
        calls
      ≡ some m)
    × ((q : Ref)
        → (manager_of q m.system).counters.tx
          ≡ arrived q m.system + owed m.waiting q + length (manager_of q m.system).tx_queue)
    × ((q : Ref)
        → (manager_of q m.system).counters.tx + (manager_of q m.system).counters.dropped
          ≡ count_if (is_ref q) m.called)
    × ((q : Ref) → (manager_of q m.system).counters.rx ≡ length (manager_of q m.system).consumed)
    × ((q : Ref) → All (accepts q) (manager_of q m.system).consumed)
calls-route_example =
    calls-route spsc_list (pos 3, pos 4) (pos 5, pos 6) (pos 7, pos 8) (pos 9) good calls refl refl
      refl refl

-- Each manager consumed one event, and the offer of ManagerB's to itself waits.
abbrev waits : Moment Ref (Offer Ref Ref) (System (List Event)) → List ℕ
waits m =
    length m.system.a.base.consumed
    ∷ length m.system.b.consumed
    ∷ length m.system.c.consumed
    ∷ length m.waiting
    ∷ []

calls-waits :
    (main spsc_list
        (some (pos 3, pos 4))
        (some (pos 5, pos 6))
        (some (pos 7, pos 8))
        (pos 9)
        good
        calls
      >>= (λ m. some (waits m)))
    ≡ some (1 ∷ 1 ∷ 1 ∷ 1 ∷ [])
unfolding main build start wire producing add_producer add_consumer lookup insert construct_router
    moves move main_move take_fd take_producer offers run_thread run_impl_a run_impl_b send fire
    consume offer clone consume_event produce drain
calls-waits = refl

abbrev event_of : ℕ → PipedEvent
event_of n = record { source = pos n; sink = pos (n + 1); fired = false; log = [] }

abbrev quiet : System (List Event)
unfolding assemble
quiet = assemble spsc_list (event_of 3) (event_of 5) (event_of 7)

abbrev bare : EventRouter Ref Ref
bare = record { fd = pos 9; producers = []; consumers = [] }

-- The subscriptions that the calls of `main` leave.
abbrev wired : EventRouter Ref Ref
unfolding wire producing add_producer add_consumer lookup insert assemble
wired = elim (wire spsc_list good quiet bare) [ none ↦ bare | some r ↦ r ]

wired-IsWired : IsWired wired
unfolding wired
wired-IsWired = record { status_to = refl; control_to = refl; serial_to = refl; error_to = refl }

quiet-HasIds : HasIds quiet
unfolding quiet
quiet-HasIds ref_a = refl
quiet-HasIds ref_b = refl
quiet-HasIds ref_c = refl

route_events-receiver_example :
    route_events (members spsc_list) wired ref_a (status_message ∷ serial_message ∷ []) quiet
    ≡ deliver
        (members spsc_list)
        (map (λ e. (receiver ref_a e, e)) (status_message ∷ serial_message ∷ []))
        quiet
route_events-receiver_example =
    route_events-receiver spsc_list wired quiet ref_a (status_message ∷ serial_message ∷ [])
      wired-IsWired quiet-HasIds (refl, (refl, tt))

route_events-deliveries_example :
    route_events (members spsc_list) wired ref_b (serial_message ∷ []) quiet
    ≡ deliver
        (members spsc_list)
        (deliveries (members spsc_list) wired ref_b quiet (serial_message ∷ []))
        quiet
route_events-deliveries_example =
    route_events-deliveries (members spsc_list) (members-IsStable spsc_list) wired ref_b
      (serial_message ∷ []) quiet
