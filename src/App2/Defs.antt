-- ===== src/App2/Defs.antt =====
-- The objects and `main` of app2.cpp.
use poc_event_manager.Prelude.{Option, some, ◌>>=◌, List, [], ◌∷◌, ◌++◌, ℤ, true}
use poc_event_manager.Event.{Event, event_a, event_b}
use poc_event_manager.EventPoller.Defs.{EventPoller, Objects, construct, add}
use poc_event_manager.EventPoller.Calls.{take_events, hand_over}
use poc_event_manager.ListManager.{Manager, build, send, consume_event, produce}
use poc_event_manager.Loop.Defs.{Machine, polling}

pub data Ref : Type 0 where
  ref_a ref_b : Ref

-- The two managers, and, as an observer of the calls has it, the events that Consume of each was
-- called with, oldest first.
pub record System : Type 0 where
  pub a : Manager
  pub b : Manager
  pub consumed_a : List Event
  pub consumed_b : List Event

abbrev pub manager_of : Ref → System → Manager
manager_of ref_a s = s.a
manager_of ref_b s = s.b

abbrev pub with_manager : Ref → Manager → System → System
with_manager ref_a m s = record s { a = m }
with_manager ref_b m s = record s { b = m }

abbrev pub observed : Ref → Event → System → System
observed ref_a e s = record s { consumed_a = s.consumed_a ++ e ∷ [] }
observed ref_b e s = record s { consumed_b = s.consumed_b ++ e ∷ [] }

-- `main` keeps both objects alive.
abbrev pub objects : Objects Ref Ref Event System
objects = record {
  lock_producer = λ p s. true;
  lock_consumer = λ c s. true;
  produce = λ p s. let r = produce (manager_of p s) in some (r.0, with_manager p r.1 s);
  consume = λ c e s. observed c e (with_manager c (consume_event e (manager_of c s)) s);
}

-- The event made from the first draw is thrown away.
abbrev pub event_of : Ref → ℤ × ℤ → Event
event_of ref_a draws = event_a draws.1
event_of ref_b draws = event_b draws.1

unfoldable pub run_impl : Ref → ℤ × ℤ → System → System
run_impl r draws s = with_manager r (send (event_of r draws) (manager_of r s)) s

-- What the threads, with what two draws give, and the loop of `main` do.
abbrev pub machine : EventPoller Ref Ref → Machine (Ref × (ℤ × ℤ)) (List ℤ) (Ref × Event) System
machine poller =
    polling (λ x s. run_impl x.0 x.1 s) (take_events objects poller) (hand_over objects)

-- The two calls of Add, with the results of epoll_ctl.
unfoldable pub wire : ℤ → ℤ → System → EventPoller Ref Ref → EventPoller Ref Ref
wire ctl_a ctl_b s poller =
    let watching = (add ctl_a s.a.tx_event.source ref_a ref_b poller).1 in
    (add ctl_b s.b.tx_event.source ref_b ref_a watching).1

-- `main` up to its loop, with the results of `pipe` and epoll_create1. The server, the managers' own
-- pollers and AddCounter are assumed to throw nothing.
unfoldable pub start :
    Option (ℤ × ℤ) → Option (ℤ × ℤ) → ℤ → ℤ → ℤ → Option (System × EventPoller Ref Ref)
start fds_a fds_b created ctl_a ctl_b = do
  a ← build fds_a
  b ← build fds_b
  poller ← construct created
  let s : System = record { a = a; b = b; consumed_a = []; consumed_b = [] }
  some (s, wire ctl_a ctl_b s poller)
