-- ===== src/CallByCall/Lists.antt =====
-- app1.cpp, app3.cpp and app7.cpp, call by call.
use poc_event_manager.Prelude.{
  ◌+◌, ◌≤◌, ◌≡◌, refl, false, some, List, [], ◌++◌, map, length, ℤ, pos, ◌==ℤ◌, minus_one,
}
use poc_event_manager.PipedEvent.Defs.{PipedEvent, construct}
use poc_event_manager.PipedEvent.Signalled.{IsSignalled}
use poc_event_manager.Event.{event_a, Event-IsSet}
use poc_event_manager.Counters.{zero_counters}
use poc_event_manager.Delivery.{IsDelivered, IsComplete, undropped-IsComplete}
use poc_event_manager.SelfLoop.Interleaved.{Move, Moment, main_of}
use poc_event_manager.SelfLoop.Transfer.{calls_lem}
use poc_event_manager.CallByCall.Commuting.{app1_commutes, app3_commutes, app7_commutes}
use poc_event_manager.App1
use poc_event_manager.App3
use poc_event_manager.App7

abbrev new_event : ℤ → ℤ → PipedEvent
new_event source sink = record { source = source; sink = sink; fired = false; log = [] }

-- app1.cpp: if `pipe` gave a source other than descriptor 0 and epoll_create1 succeeded, the program
-- runs with no fault wherever the thread and signals come between the calls of the main loop, in
-- Execute too. The events consumed, those that Produce returned and that are still to be consumed,
-- and those that are queued are, in this order, a subsequence of the events that the calls of
-- _runImpl made; the consumed ones are as many as were counted as received, all three together as
-- many as were counted as sent, and all that were made as many as were counted as sent or dropped.
-- The queue never holds more than one event above MAX_QUEUE_SIZE, and the pipe holds one byte
-- exactly while something is queued.
pub app1_sound :
    (source sink created ctl : ℤ) (acts : List (Move (ℤ × ℤ)))
    → (source ==ℤ pos 0) ≡ false
    → (created ==ℤ minus_one) ≡ false
    → (s : Moment (ℤ × ℤ) App1.ManagerA) × (main_of App1.manager_ops
          (App1.manager_a (some (source, sink)))
          created
          ctl
          acts
        ≡ some s)
      × IsDelivered
          (map (λ (draws : ℤ × ℤ). event_a draws.1) s.called)
          s.consumed
          (s.waiting ++ s.manager.tx_queue)
          s.manager.counters
      × (length s.manager.tx_queue ≤ App1.max_queue_size + 1)
      × IsSignalled s.manager.tx_event s.manager.tx_queue
unfolding App1.manager_a construct App1.manager_laws App1.main App1.consume_event
app1_sound source sink created ctl acts h k =
    let (s, e, d, (bounded, signalled)) =
      calls_lem App1.manager_ops App1.manager_laws
        (λ m. (length m.tx_queue ≤ App1.max_queue_size + 1) × IsSignalled m.tx_event m.tx_queue)
        app1_commutes (λ e m v. v) created ctl
        (record { tx_event = new_event source sink; tx_queue = []; counters = zero_counters }) k tt
        refl refl
        (λ ts.
          let (p, e, d, b, v) = App1.main_sound source sink created ctl ts h k in (p, e, (b, v)))
        acts in
    (s, e, d, bounded, signalled)

-- app3.cpp: if `pipe` gave a source other than descriptor 0 and epoll_create1 succeeded, the program
-- runs with no fault wherever the thread and signals come between the calls of the main loop, in
-- Execute too. The events consumed, those that Produce returned and that are still to be consumed,
-- and those that are queued are, in this order, all the events that the calls of _runImpl made, as
-- many as were counted as sent; the consumed ones are as many as were counted as received; nothing
-- was counted as dropped. The pipe holds one byte exactly while something is queued.
pub app3-IsComplete :
    (source sink created ctl : ℤ) (acts : List (Move (ℤ × ℤ)))
    → (source ==ℤ pos 0) ≡ false
    → (created ==ℤ minus_one) ≡ false
    → (s : Moment (ℤ × ℤ) App3.ManagerA) × (main_of App3.manager_ops
          (App3.manager_a (some (source, sink)))
          created
          ctl
          acts
        ≡ some s)
      × IsComplete
          (map (λ (draws : ℤ × ℤ). event_a draws.1) s.called)
          s.consumed
          (s.waiting ++ s.manager.tx_queue)
          s.manager.counters
      × IsSignalled s.manager.tx_event s.manager.tx_queue
unfolding App3.manager_a construct App3.manager_laws App3.main App3.consume_event
app3-IsComplete source sink created ctl acts h k =
    let (s, e, d, (u, v)) =
      calls_lem App3.manager_ops App3.manager_laws
        (λ m. (m.counters.dropped ≡ 0) × IsSignalled m.tx_event m.tx_queue) app3_commutes
        (λ e m v. v) created ctl
        (record { tx_event = new_event source sink; tx_queue = []; counters = zero_counters }) k tt
        refl refl
        (λ ts.
          let (p, e, d, x, y, u, v) = App3.main-IsSignalled source sink created ctl ts h k in
          (p, e, (u, v)))
        acts in
    (s, e, undropped-IsComplete Event-IsSet d u, v)

-- app7.cpp: if `pipe` and epoll_create1 succeeded, the program runs without blocking on the mutex
-- wherever the thread and signals come between the calls of the main loop, in Execute too. The
-- events consumed, those that Produce returned and that are still to be consumed, and those that
-- are queued are, in this order, all the events that the calls of _runImpl made, as many as were
-- counted as sent; the consumed ones are as many as were counted as received; nothing was counted
-- as dropped.
pub app7-IsComplete :
    (source sink created ctl : ℤ) (acts : List (Move (ℤ × ℤ)))
    → (created ==ℤ minus_one) ≡ false
    → (s : Moment (ℤ × ℤ) App7.ManagerA) × (main_of App7.manager_ops
          (App7.manager_a (some (source, sink)))
          created
          ctl
          acts
        ≡ some s)
      × IsComplete
          (map (λ (draws : ℤ × ℤ). event_a draws.1) s.called)
          s.consumed
          (s.waiting ++ s.manager.tx_queue.value)
          s.manager.counters
unfolding App7.manager_a construct App7.manager_laws App7.main App7.consume_event
app7-IsComplete source sink created ctl acts h =
    let (s, e, d, u) =
      calls_lem App7.manager_ops App7.manager_laws (λ m. m.counters.dropped ≡ 0) app7_commutes
        (λ e m v. v) created ctl (App7.new_manager (new_event source sink)) h refl refl refl
        (λ ts.
          let (p, e, x, y, z, u) = App7.main-unblocked source sink created ctl ts h in (p, e, u))
        acts in
    (s, e, undropped-IsComplete Event-IsSet d u)
