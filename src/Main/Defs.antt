-- ===== src/Main/Defs.antt =====
-- The objects of main.cpp, and `main` with its loop.
use poc_event_manager.Prelude.{
  ℕ, ◌+◌, ◌==ℤ◌, Option, some, ◌>>=◌, List, [], ◌∷◌, ◌++◌, map, ℤ, Bool, true, false, ltb, length,
  if◌then◌else◌,
}
use poc_event_manager.PipedEvent.Defs.{fire}
use poc_event_manager.Event.{
  Event, EventType, event_type_a, event_type_b, event_type, event_a, event_b,
}
use poc_event_manager.Counters.{increment_rx, increment_tx, increment_dropped}
use poc_event_manager.EventPoller.Defs.{EventPoller, Objects, construct, add}
use poc_event_manager.EventPoller.Calls.{take_events, hand_over}
use poc_event_manager.ListManager.{Manager, build, send, consume_event, produce}
use poc_event_manager.Loop.Defs.{Machine, polling}

abbrev pub max_queue_size : ℕ
max_queue_size = 5000

pub data Ref : Type 0 where
  ref_a ref_b ref_c : Ref

-- The managers, and, as an observer of the calls has it, the events that Consume of ManagerA was
-- called with, oldest first.
pub record System : Type 0 where
  pub a : Manager
  pub b : Manager
  pub c : Manager
  pub events_produced : ℕ  -- eventsProducedCounter
  pub consumed_a : List Event

abbrev pub manager_of : Ref → System → Manager
manager_of ref_a s = s.a
manager_of ref_b s = s.b
manager_of ref_c s = s.c

abbrev pub with_manager : Ref → Manager → System → System
with_manager ref_a m s = record s { a = m }
with_manager ref_b m s = record s { b = m }
with_manager ref_c m s = record s { c = m }

-- _runImpl of ManagerA and ManagerB, with the event that is queued. The size is read before the
-- mutex is taken; between the two the main thread can only empty the list.
unfoldable pub send_limited : Event → Manager → Manager
send_limited e m =
    if ltb max_queue_size (length m.tx_queue)
    then record m { counters = increment_dropped m.counters }
    else send e m

-- The threads. ManagerC's only waits on a poller of its own that watches nothing.
unfoldable pub thread_body : Ref → ℤ × ℤ → System → System
thread_body ref_a draws s = record s { a = send_limited (event_a draws.1) s.a }
thread_body ref_b draws s = record s { b = send_limited (event_b draws.0) s.b }
thread_body ref_c draws s = s

-- Is Run called? The call for ManagerB is commented out.
abbrev pub is_run : Ref → Bool
is_run ref_a = true
is_run ref_b = false
is_run ref_c = true

unfoldable pub run_impl : Ref → ℤ × ℤ → System → System
unfolding thread_body
run_impl r draws s = if is_run r then thread_body r draws s else s

-- ManagerC queues what it consumes.
unfoldable pub consume_c : Event → Manager → Manager
consume_c e m = record m {
  tx_queue = m.tx_queue ++ e ∷ [];
  counters = increment_tx (increment_rx m.counters);
  tx_event = fire m.tx_event;
}

abbrev pub consume_by : Ref → Event → Manager → Manager
consume_by ref_a e m = consume_event e m
consume_by ref_b e m = consume_event e m
consume_by ref_c e m = consume_c e m

abbrev pub observed : Ref → Event → System → System
observed ref_a e s = record s { consumed_a = s.consumed_a ++ e ∷ [] }
observed ref_b e s = s
observed ref_c e s = s

-- `main` keeps the objects alive.
abbrev pub objects : Objects Ref Ref Event System
objects = record {
  lock_producer = λ p s. true;
  lock_consumer = λ c s. true;
  produce = λ p s. let r = produce (manager_of p s) in some (r.0, with_manager p r.1 s);
  consume = λ c e s. observed c e (with_manager c (consume_by c e (manager_of c s)) s);
}

abbrev receiver : EventType → Ref
receiver event_type_a = ref_a
receiver event_type_b = ref_b

-- One round of the loop over ManagerC's events.
unfoldable pub give_back : Event → System → System
give_back e s =
    let k = objects.consume (receiver (event_type e)) e s in
    record k { events_produced = k.events_produced + 1 }

-- What `main` does with an event: a round of its loop over ManagerC's events, or a call of Consume
-- in Execute.
pub data Call : Type 0 where
  gives_back : Event → Call
  hands_over : Ref × Event → Call

-- The body of the loop over the reported descriptors, up to its first such call.
unfoldable pub take : EventPoller Ref Ref → ℤ → System → Option (List Call × System)
take poller fd s =
    if fd ==ℤ s.c.tx_event.source
    then some (map gives_back (produce s.c).0, record s { c = (produce s.c).1 })
    else take_events objects poller fd s >>= (λ r. some (map hands_over r.0, r.1))

abbrev pub deliver : Call → System → System
deliver (gives_back e) s = give_back e s
deliver (hands_over d) s = hand_over objects d s

-- What the threads, with what two draws give, and the loop of `main` do.
abbrev pub machine : EventPoller Ref Ref → Machine (Ref × (ℤ × ℤ)) (List ℤ) Call System
machine poller = polling (λ x s. run_impl x.0 x.1 s) (take poller) deliver

-- The calls of Add, with the results of epoll_ctl. The third only asks epoll to watch ManagerC's
-- descriptor and leaves the map alone.
unfoldable pub wire : ℤ → ℤ → System → EventPoller Ref Ref → EventPoller Ref Ref
wire ctl_a ctl_b s poller =
    let watching = (add ctl_a s.a.tx_event.source ref_a ref_c poller).1 in
    (add ctl_b s.b.tx_event.source ref_b ref_c watching).1

-- `main` up to its loop, with the results of `pipe` and epoll_create1. The server, the managers' own
-- pollers and AddCounter are assumed to throw nothing.
unfoldable pub start :
    Option (ℤ × ℤ)
    → Option (ℤ × ℤ)
    → Option (ℤ × ℤ)
    → ℤ
    → ℤ
    → ℤ
    → Option (System × EventPoller Ref Ref)
start fds_a fds_b fds_c created ctl_a ctl_b = do
  a ← build fds_a
  b ← build fds_b
  c ← build fds_c
  poller ← construct created
  let s : System = record { a = a; b = b; c = c; events_produced = 0; consumed_a = [] }
  some (s, wire ctl_a ctl_b s poller)
