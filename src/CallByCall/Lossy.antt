-- ===== src/CallByCall/Lossy.antt =====
-- app4.cpp and app8.cpp, call by call.
use poc_event_manager.Prelude.{
  ◌+◌, ◌≤◌, ◌≡◌, refl, subst, ◌∷◌, false, Bool, some, List, [], ◌++◌, length, ℤ, ◌==ℤ◌, minus_one,
  count_if,
}
use poc_event_manager.Event.{Event}
use poc_event_manager.Manager.Interface.{consume1}
use poc_event_manager.SelfLoop.Interleaved.{Move, Moment, main_of, settled}
use poc_event_manager.SelfLoop.Settling.{main-transfer}
use poc_event_manager.CallByCall.Commuting.{app4_commutes, app8_commutes}
use poc_event_manager.App4
use poc_event_manager.App8.Defs
use poc_event_manager.App8.Defs.{Env}
use poc_event_manager.App8.Balance.{made, main-balanced}

-- app8.cpp: if `pipe` and epoll_create1 succeeded, the program runs with no fault wherever the
-- thread and signals come between the calls of the main loop, in Execute too, whatever the tries of
-- the mutexes give. Once the events that Produce returned were consumed: for every test of events, no
-- more of those that were consumed or wait in one of the queues pass it than of those that the
-- calls of _runImpl made; the consumed ones are as many as were counted as received, those and the
-- waiting ones as many as were counted as sent, and all that were made as many as were counted as
-- sent or dropped.
pub app8_balanced :
    (source sink created ctl : ℤ) (acts : List (Move Env)) (t : Event → Bool)
    → (created ==ℤ minus_one) ≡ false
    → (s : Moment Env Defs.ManagerA) × (main_of Defs.manager_ops
          (Defs.manager_a (some (source, sink)))
          created
          ctl
          acts
        ≡ some s)
      × (let p = settled Defs.manager_ops s in
          (count_if t p.consumed + count_if t p.manager.tx_queue1 + count_if t p.manager.tx_queue2
            ≤ count_if t (made s.called))
          × (p.manager.counters.rx ≡ length p.consumed)
          × (p.manager.counters.tx
              ≡ length p.consumed + length p.manager.tx_queue1 + length p.manager.tx_queue2)
          × (p.manager.counters.tx + p.manager.counters.dropped ≡ length s.called))
unfolding Defs.main
app8_balanced source sink created ctl acts t h =
    main-transfer Defs.manager_ops app8_commutes (Defs.manager_a (some (source, sink))) created ctl
      (λ called p.
        (count_if t p.consumed + count_if t p.manager.tx_queue1 + count_if t p.manager.tx_queue2
          ≤ count_if t (made called))
        × (p.manager.counters.rx ≡ length p.consumed)
        × (p.manager.counters.tx
            ≡ length p.consumed + length p.manager.tx_queue1 + length p.manager.tx_queue2)
        × (p.manager.counters.tx + p.manager.counters.dropped ≡ length called))
      (λ ts.
        let (p, e, a, b, c, d) = main-balanced source sink created ctl ts t h in
        (p, e, (a, b, c, d)))
      acts

nil-append : (xs ys : List Event) → xs ++ ys ≡ [] → (xs ≡ []) × (ys ≡ [])
nil-append [] ys h = (refl, h)
nil-append (x ∷ xs) ys h = absurd (cc h)

unconsumed : (es : List Event) (m : App4.ManagerA) → es ≡ [] → consume1 App4.manager_ops es m ≡ m
unfolding consume1
unconsumed [] m h = refl
unconsumed (e ∷ es) m h = absurd (cc h)

-- app4.cpp: if `pipe` and epoll_create1 succeeded, the program runs with no fault wherever the
-- thread and signals come between the calls of the main loop; every call of _runImpl is counted as
-- a sent event, and yet no event is ever queued, returned by Produce or consumed, and the count of received
-- events is 0.
pub app4_delivers_nothing :
    (source sink created ctl : ℤ) (acts : List (Move ℤ))
    → (created ==ℤ minus_one) ≡ false
    → (s : Moment ℤ App4.ManagerA) × (main_of App4.manager_ops
          (App4.manager_a (some (source, sink)))
          created
          ctl
          acts
        ≡ some s)
      × (s.manager.counters.tx ≡ length s.called)
      × (s.manager.tx_queue ≡ [])
      × (s.consumed ≡ [])
      × (s.waiting ≡ [])
      × (s.manager.counters.rx ≡ 0)
unfolding App4.main
app4_delivers_nothing source sink created ctl acts h =
    let (s, e, (counted, unqueued, none_left, unreceived)) =
      main-transfer App4.manager_ops app4_commutes (App4.manager_a (some (source, sink))) created
        ctl
        (λ called p.
          (p.manager.counters.tx ≡ length called)
          × (p.manager.tx_queue ≡ [])
          × (p.consumed ≡ [])
          × (p.manager.counters.rx ≡ 0))
        (λ ts.
          let (p, k, a, b, c, d) = App4.main-delivers_nothing source sink created ctl ts h in
          (p, k, (a, b, c, d)))
        acts in
    let (unconsumed_yet, unreturned) = nil-append s.consumed s.waiting none_left in
    let same = unconsumed s.waiting s.manager unreturned in
    (
      s,
      e,
      subst (λ m. m.counters.tx ≡ length s.called) same counted,
      subst (λ m. m.tx_queue ≡ []) same unqueued,
      unconsumed_yet,
      unreturned,
      subst (λ m. m.counters.rx ≡ 0) same unreceived,
    )
