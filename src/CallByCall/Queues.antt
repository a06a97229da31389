-- ===== src/CallByCall/Queues.antt =====
-- app5.cpp, app6.cpp, app10.cpp and app11.cpp, call by call: the lock-free queues.
use poc_event_manager.Prelude.{◌≡◌, refl, false, some, List, [], ◌++◌, map, ℤ, ◌==ℤ◌, minus_one}
use poc_event_manager.PipedEvent.Defs.{PipedEvent, construct}
use poc_event_manager.Event.{Event, event_a, Event-IsSet}
use poc_event_manager.Delivery.{IsDelivered, IsComplete, undropped-IsComplete}
use poc_event_manager.Queues.ReaderWriter.{ReaderWriterQueue}
use poc_event_manager.Queues.Atomic.{AtomicQueue}
use poc_event_manager.Queues.Spsc.{SpscQueue}
use poc_event_manager.LockeFreeQueue.Defs
use poc_event_manager.SelfLoop.Interleaved.{Move, Moment, main_of}
use poc_event_manager.SelfLoop.Calls.{moves-IsDelivered}
use poc_event_manager.SelfLoop.Transfer.{calls_lem}
use poc_event_manager.CallByCall.Commuting.{app6_commutes}
use poc_event_manager.App5
use poc_event_manager.App6
use poc_event_manager.App10
use poc_event_manager.App11

abbrev new_event : ℤ → ℤ → PipedEvent
new_event source sink = record { source = source; sink = sink; fired = false; log = [] }

-- app6.cpp: if `pipe` and epoll_create1 succeeded, the program runs with no fault wherever the thread
-- and signals come between the calls of the main loop, in Execute too (swap ends, and no deleted
-- node is touched). The events consumed, those that Produce returned and that are still to be
-- consumed, and those that are queued are, in this order, all the events that the calls of _runImpl
-- made, as many as were counted as sent; the consumed ones are as many as were counted as received;
-- nothing was counted as dropped.
pub app6-IsComplete :
    (source sink created ctl : ℤ) (acts : List (Move (ℤ × ℤ)))
    → (created ==ℤ minus_one) ≡ false
    → (s : Moment (ℤ × ℤ) App6.ManagerA) × (main_of App6.manager_ops
          (App6.manager_a (some (source, sink)))
          created
          ctl
          acts
        ≡ some s)
      × IsComplete
          (map (λ (draws : ℤ × ℤ). event_a draws.1) s.called)
          s.consumed
          (s.waiting ++ App6.queued s.manager)
          s.manager.counters
unfolding App6.manager_a construct App6.manager_laws App6.main App6.consume_event
app6-IsComplete source sink created ctl acts h =
    let (s, e, d, u) =
      calls_lem App6.manager_ops App6.manager_laws (λ m. m.counters.dropped ≡ 0) app6_commutes
        (λ e m v. v) created ctl (App6.new_manager (new_event source sink)) h
        (record { reach = Defs.start; producers = λ i. refl; consumer_out = refl }) refl refl
        (λ ts. let (p, e, x, y, z, u) = App6.main-swaps source sink created ctl ts h in (p, e, u))
        acts in
    (s, e, undropped-IsComplete Event-IsSet d u)

-- app5.cpp: with a queue that keeps its documented promises: if `pipe` and epoll_create1 succeeded,
-- the program runs with no fault wherever the thread and signals come between the calls of the main
-- loop, in Execute too. The events consumed, those that Produce returned and that are still to be
-- consumed, and those that are queued are, in this order, a subsequence of the events that the calls
-- of _runImpl made; the consumed ones are as many as were counted as received, all three together
-- as many as were counted as sent, and all that were made as many as were counted as sent or
-- dropped.
pub app5_delivers :
    {Q : Type 0} (lib : ReaderWriterQueue Event Q) (source sink created ctl : ℤ)
    (acts : List (Move ℤ))
    → (created ==ℤ minus_one) ≡ false
    → (s : Moment ℤ (App5.ManagerA Q)) × (main_of
          (App5.manager_ops lib)
          (App5.manager_a lib (some (source, sink)))
          created
          ctl
          acts
        ≡ some s)
      × IsDelivered
          (map event_a s.called)
          s.consumed
          (s.waiting ++ lib.contents s.manager.tx_queue)
          s.manager.counters
unfolding App5.manager_a construct App5.manager_laws
app5_delivers lib source sink created ctl acts h =
    moves-IsDelivered (App5.manager_ops lib) (App5.manager_laws lib) created ctl
      (App5.new_manager lib (new_event source sink)) acts h tt (lib.make_empty App5.max_queue_size)
      refl

-- app10.cpp: with a queue that keeps its documented promises: if `pipe` and epoll_create1 succeeded,
-- the program runs with no fault wherever the thread and signals come between the calls of the main
-- loop, in Execute too. The events consumed, those that Produce returned and that are still to be
-- consumed, and those that are queued are, in this order, a subsequence of the events that the calls
-- of _runImpl made; the consumed ones are as many as were counted as received, all three together
-- as many as were counted as sent, and all that were made as many as were counted as sent or
-- dropped.
pub app10_delivers :
    {Q : Type 0} (lib : AtomicQueue Event Q) (source sink created ctl : ℤ) (acts : List (Move ℤ))
    → (created ==ℤ minus_one) ≡ false
    → (s : Moment ℤ (App10.ManagerA Q)) × (main_of
          (App10.manager_ops lib)
          (App10.manager_a lib (some (source, sink)))
          created
          ctl
          acts
        ≡ some s)
      × IsDelivered
          (map event_a s.called)
          s.consumed
          (s.waiting ++ lib.contents s.manager.tx_queue)
          s.manager.counters
unfolding App10.manager_a construct App10.manager_laws
app10_delivers lib source sink created ctl acts h =
    moves-IsDelivered (App10.manager_ops lib) (App10.manager_laws lib) created ctl
      (App10.new_manager lib (new_event source sink)) acts h tt
      (lib.make_empty App10.max_queue_size) refl

-- app11.cpp: with a queue that keeps its documented promises: if `pipe` and epoll_create1 succeeded,
-- the program runs with no fault wherever the thread and signals come between the calls of the main
-- loop, in Execute too. The events consumed, those that Produce returned and that are still to be
-- consumed, and those that are queued are, in this order, a subsequence of the events that the calls
-- of _runImpl made; the consumed ones are as many as were counted as received, all three together
-- as many as were counted as sent, and all that were made as many as were counted as sent or
-- dropped.
pub app11_delivers :
    {Q : Type 0} (lib : SpscQueue Event Q) (source sink created ctl : ℤ) (acts : List (Move ℤ))
    → (created ==ℤ minus_one) ≡ false
    → (s : Moment ℤ (App11.ManagerA Q)) × (main_of
          (App11.manager_ops lib)
          (App11.manager_a lib (some (source, sink)))
          created
          ctl
          acts
        ≡ some s)
      × IsDelivered
          (map event_a s.called)
          s.consumed
          (s.waiting ++ lib.contents s.manager.tx_queue)
          s.manager.counters
unfolding App11.manager_a construct App11.manager_laws
app11_delivers lib source sink created ctl acts h =
    moves-IsDelivered (App11.manager_ops lib) (App11.manager_laws lib) created ctl
      (App11.new_manager lib (new_event source sink)) acts h tt
      (lib.make_empty App11.max_queue_size) refl
