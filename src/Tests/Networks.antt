-- ===== src/Tests/Networks.antt =====
-- app2.cpp and main.cpp, each run on a short schedule.
use poc_event_manager.Prelude.{
  ℕ, ℤ, lookup, insert, ◌+◌, ◌++◌, ◌≤◌, ◌≡◌, refl, some, List, [], ◌∷◌, pos, length, int_eq, ◌>>=◌,
}
use poc_event_manager.PipedEvent.Defs.{construct as construct_event, fire, consume}
use poc_event_manager.Delivery.{IsDelivered}
use poc_event_manager.EventPoller.Defs.{construct, add}
use poc_event_manager.EventPoller.Calls.{take_pair, take_events}
use poc_event_manager.ListManager.{build, send, consume_event, produce}
use poc_event_manager.App2.Defs
use poc_event_manager.App2.Exchange.{made, on_way}
use poc_event_manager.App2.Calls as App2
use poc_event_manager.Main.Calls as Main
use poc_event_manager.Main.Flow.{to_give_back, to_hand_over}
use poc_event_manager.Event.{Event}
use poc_event_manager.Loop.Calls.{
  Move, thread_moves, main_moves, signalled, Moment, main_move, move, moves,
}
use poc_event_manager.Main.Defs as hub
use poc_event_manager.Main.Hub.{IsIdle, made as made_by_a}

-- ManagerA sends again, and ManagerB too, between the Produce of ManagerA and the Consume of
-- ManagerB; the second event of ManagerA waits until the signal.
abbrev both_send : List (Move (Defs.Ref × (ℤ × ℤ)) (List ℤ))
both_send =
    thread_moves (Defs.ref_a, (pos 1, pos 2))
    ∷ main_moves (pos 3 ∷ pos 6 ∷ [])
    ∷ main_moves []
    ∷ thread_moves (Defs.ref_a, (pos 5, pos 7))
    ∷ thread_moves (Defs.ref_b, (pos 3, pos 4))
    ∷ main_moves []
    ∷ main_moves []
    ∷ signalled
    ∷ []

calls-exchange_example :
    (m : Moment (Defs.Ref × (ℤ × ℤ)) (Defs.Ref × Event) Defs.System) × (App2.main
        (some (pos 3, pos 4))
        (some (pos 6, pos 7))
        (pos 5)
        (pos 0)
        (pos 0)
        both_send
      ≡ some m)
    × (m.system.consumed_b ++ (on_way Defs.ref_b m.waiting ++ m.system.a.tx_queue)
        ≡ made Defs.ref_a m.called)
    × (m.system.consumed_a ++ (on_way Defs.ref_a m.waiting ++ m.system.b.tx_queue)
        ≡ made Defs.ref_b m.called)
    × (m.system.a.counters.tx ≡ length (made Defs.ref_a m.called))
    × (m.system.b.counters.tx ≡ length (made Defs.ref_b m.called))
    × (m.system.a.counters.rx ≡ length m.system.consumed_a)
    × (m.system.b.counters.rx ≡ length m.system.consumed_b)
calls-exchange_example =
    App2.calls-exchange (pos 3, pos 4) (pos 6, pos 7) (pos 5) (pos 0) (pos 0) both_send refl

-- ManagerA sends a second time while `main` is between Produce and Consume.
abbrev calls : List (Move (hub.Ref × (ℤ × ℤ)) (List ℤ))
calls =
    thread_moves (hub.ref_a, (pos 1, pos 2))
    ∷ main_moves (pos 3 ∷ pos 8 ∷ [])
    ∷ main_moves []
    ∷ thread_moves (hub.ref_a, (pos 5, pos 7))
    ∷ main_moves []
    ∷ main_moves []
    ∷ thread_moves (hub.ref_b, (pos 5, pos 7))
    ∷ main_moves []
    ∷ []

calls-give_back_example :
    (m : Moment (hub.Ref × (ℤ × ℤ)) hub.Call hub.System) × (Main.main
        (some (pos 3, pos 4))
        (some (pos 6, pos 7))
        (some (pos 8, pos 9))
        (pos 5)
        (pos 0)
        (pos 0)
        calls
      ≡ some m)
    × IsDelivered
        (made_by_a m.called)
        m.system.consumed_a
        (to_give_back m.waiting
          ++ (m.system.c.tx_queue ++ (to_hand_over m.waiting ++ m.system.a.tx_queue)))
        m.system.a.counters
    × (m.system.a.counters.tx
        ≡ m.system.c.counters.rx + length m.system.a.tx_queue + length (to_hand_over m.waiting))
    × (length m.system.a.tx_queue ≤ hub.max_queue_size + 1)
    × (m.system.events_produced ≡ m.system.a.counters.rx)
    × IsIdle m.system.b
calls-give_back_example =
    Main.calls-give_back (pos 3, pos 4) (pos 6, pos 7) (pos 8, pos 9) (pos 5) (pos 0) (pos 0) calls
      refl

-- ManagerA got one event back, and its second waits in its queue.
abbrev counts : Moment (hub.Ref × (ℤ × ℤ)) hub.Call hub.System → List ℕ
counts m =
    m.system.a.counters.tx
    ∷ m.system.a.counters.rx
    ∷ m.system.c.counters.rx
    ∷ m.system.events_produced
    ∷ length m.system.a.tx_queue
    ∷ length m.system.c.tx_queue
    ∷ []

calls-counts :
    (Main.main
        (some (pos 3, pos 4))
        (some (pos 6, pos 7))
        (some (pos 8, pos 9))
        (pos 5)
        (pos 0)
        (pos 0)
        calls
      >>= (λ m. some (counts m)))
    ≡ some (2 ∷ 1 ∷ 1 ∷ 1 ∷ 1 ∷ 0 ∷ [])
unfolding Main.main hub.start hub.wire hub.run_impl hub.thread_body hub.take hub.consume_c
    hub.give_back hub.send_limited build send consume_event produce construct_event construct add
    take_events take_pair moves move main_move lookup insert fire consume
calls-counts = refl
