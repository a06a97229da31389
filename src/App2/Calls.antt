-- ===== src/App2/Calls.antt =====
-- app2.cpp, where threads and signals come between any two calls that `main` makes.
use poc_event_manager.Prelude.{
  ◌++◌, ◌≡◌, false, some, Option, ◌>>=◌, List, ℤ, ◌==ℤ◌, minus_one, length,
}
use poc_event_manager.Event.{Event}
use poc_event_manager.Loop.Calls.{Move, Moment, moves, enter}
use poc_event_manager.Loop.Keeping.{moves-keeps}
use poc_event_manager.App2.Defs.{Ref, ref_a, ref_b, System, machine, start}
use poc_event_manager.App2.Exchange.{
  made, on_way, Exchanged, Exchanged-kept, built, wired, start_lem, wired-IsCrossed,
  built-Exchanged,
}

-- `main`, where a call that its loop makes is one step.
unfoldable pub main :
    Option (ℤ × ℤ)
    → Option (ℤ × ℤ)
    → ℤ
    → ℤ
    → ℤ
    → List (Move (Ref × (ℤ × ℤ)) (List ℤ))
    → Option (Moment (Ref × (ℤ × ℤ)) (Ref × Event) System)
main fds_a fds_b created ctl_a ctl_b acts =
    start fds_a fds_b created ctl_a ctl_b
    >>= (λ r. moves (machine r.1) acts (enter (machine r.1) r.0))

-- If the calls of `pipe` and epoll_create1 succeeded, the program runs with no fault, whatever
-- epoll_ctl gave and wherever the threads' calls of _runImpl and the signals come between the calls
-- of Produce and Consume that `main` makes. The events that a manager consumed, followed by those
-- that Produce returned and that are still to be handed to it, and by those that wait in the other's
-- queue, are all the events that the other made, in that order; each manager counted as sent what it
-- made, and as received what it consumed.
pub calls-exchange :
    (fds_a fds_b : ℤ × ℤ) (created ctl_a ctl_b : ℤ) (acts : List (Move (Ref × (ℤ × ℤ)) (List ℤ)))
    → (created ==ℤ minus_one) ≡ false
    → (m : Moment (Ref × (ℤ × ℤ)) (Ref × Event) System) × (main
          (some fds_a)
          (some fds_b)
          created
          ctl_a
          ctl_b
          acts
        ≡ some m)
      × (m.system.consumed_b ++ (on_way ref_b m.waiting ++ m.system.a.tx_queue)
          ≡ made ref_a m.called)
      × (m.system.consumed_a ++ (on_way ref_a m.waiting ++ m.system.b.tx_queue)
          ≡ made ref_b m.called)
      × (m.system.a.counters.tx ≡ length (made ref_a m.called))
      × (m.system.b.counters.tx ≡ length (made ref_b m.called))
      × (m.system.a.counters.rx ≡ length m.system.consumed_a)
      × (m.system.b.counters.rx ≡ length m.system.consumed_b)
unfolding main
calls-exchange fds_a fds_b created ctl_a ctl_b acts h =
    let poller = wired fds_a fds_b created ctl_a ctl_b in
    let (m, e, f) =
      moves-keeps (machine poller) Exchanged
        (Exchanged-kept poller (wired-IsCrossed fds_a fds_b created ctl_a ctl_b)) acts
        (built fds_a fds_b) (built-Exchanged fds_a fds_b) in
    (
      m,
      rw (start_lem fds_a fds_b created ctl_a ctl_b h) e,
      f.from_a.order,
      f.from_b.order,
      f.from_a.sent,
      f.from_b.sent,
      f.from_b.received,
      f.from_a.received,
    )
