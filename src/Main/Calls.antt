-- ===== src/Main/Calls.antt =====
-- main.cpp, where threads and signals come between any two calls that `main` makes.
use poc_event_manager.Prelude.{
  ◌+◌, ◌++◌, ◌≤◌, ◌≡◌, false, some, Option, ◌>>=◌, List, ℤ, ◌==ℤ◌, minus_one, length,
}
use poc_event_manager.Delivery.{IsDelivered}
use poc_event_manager.Loop.Calls.{Move, Moment, moves, enter}
use poc_event_manager.Loop.Keeping.{moves-keeps}
use poc_event_manager.Main.Defs.{max_queue_size, Ref, System, Call, machine, start}
use poc_event_manager.Main.Hub.{IsIdle, made}
use poc_event_manager.Main.Flow.{
  to_give_back, to_hand_over, Going, Going-kept, built, wired, start_lem, wired-IsHub, built-Going,
}

-- `main`, where a call that its loop makes is one step.
unfoldable pub main :
    Option (ℤ × ℤ)
    → Option (ℤ × ℤ)
    → Option (ℤ × ℤ)
    → ℤ
    → ℤ
    → ℤ
    → List (Move (Ref × (ℤ × ℤ)) (List ℤ))
    → Option (Moment (Ref × (ℤ × ℤ)) Call System)
main fds_a fds_b fds_c created ctl_a ctl_b acts =
    start fds_a fds_b fds_c created ctl_a ctl_b
    >>= (λ r. moves (machine r.1) acts (enter (machine r.1) r.0))

-- If the calls of `pipe` and epoll_create1 succeeded, the program runs with no fault, whatever
-- epoll_ctl gave and wherever the threads' calls of _runImpl and the signals come between the calls
-- of Produce and Consume that `main` makes. The events that ManagerA got back, followed by those
-- that `main` took from ManagerC and has still to give back, those that wait with ManagerC, those
-- that Execute took from ManagerA and has still to hand over, and those that wait with ManagerA, are
-- a subsequence of the events that ManagerA's calls of _runImpl made; those it got back are as many
-- as it counted as received, all of them as many as it counted as sent, and all that were made as
-- many as it counted as sent or dropped. What ManagerA counted as sent is what ManagerC counted as
-- received, what waits in ManagerA's queue, and what Execute has still to hand over; that queue never
-- holds more than one event above MAX_QUEUE_SIZE; the events counted by `main` are those that
-- ManagerA got back; and ManagerB, whose thread is not started, sends and receives nothing.
pub calls-give_back :
    (fds_a fds_b fds_c : ℤ × ℤ) (created ctl_a ctl_b : ℤ)
    (acts : List (Move (Ref × (ℤ × ℤ)) (List ℤ)))
    → (created ==ℤ minus_one) ≡ false
    → (m : Moment (Ref × (ℤ × ℤ)) Call System) × (main
          (some fds_a)
          (some fds_b)
          (some fds_c)
          created
          ctl_a
          ctl_b
          acts
        ≡ some m)
      × IsDelivered
          (made m.called)
          m.system.consumed_a
          (to_give_back m.waiting
            ++ (m.system.c.tx_queue ++ (to_hand_over m.waiting ++ m.system.a.tx_queue)))
          m.system.a.counters
      × (m.system.a.counters.tx
          ≡ m.system.c.counters.rx + length m.system.a.tx_queue + length (to_hand_over m.waiting))
      × (length m.system.a.tx_queue ≤ max_queue_size + 1)
      × (m.system.events_produced ≡ m.system.a.counters.rx)
      × IsIdle m.system.b
unfolding main
calls-give_back fds_a fds_b fds_c created ctl_a ctl_b acts h =
    let poller = wired fds_a fds_b fds_c created ctl_a ctl_b in
    let (m, e, g) =
      moves-keeps (machine poller) Going
        (Going-kept poller (wired-IsHub fds_a fds_b fds_c created ctl_a ctl_b)) acts
        (built fds_a fds_b fds_c) (built-Going fds_a fds_b fds_c) in
    (
      m,
      rw (start_lem fds_a fds_b fds_c created ctl_a ctl_b h) e,
      g.inv.delivered,
      g.inv.from_a,
      g.inv.bounded,
      g.inv.produced,
      g.inv.idle,
    )
