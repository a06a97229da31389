-- ===== src/App6.antt =====
-- app6.cpp: the queue is the LockeFreeQueue of inc/LockeFreeQueue.h.
use poc_event_manager.Prelude.{
  ◌+◌, ◌≤◌, ◌≡◌, refl, true, false, map, inl, drop-append, some-cancel, Option, some, ◌>>=◌, List,
  [], ◌∷◌, ◌++◌, ℤ, ◌==ℤ◌, minus_one, arith, length, length-append, drop, drop_all, append-nil, sym,
  ap, ◌∙◌,
}
use poc_event_manager.PipedEvent.Defs.{PipedEvent, construct, fire, consume}
use poc_event_manager.Event.{Event, event_a}
use poc_event_manager.Counters.{Counters, zero_counters, increment_rx, increment_tx}
use poc_event_manager.Manager.Interface.{IManager, IsConserving}
use poc_event_manager.SelfLoop.Defs.{Turn, Program, start, run, rounds}
use poc_event_manager.SelfLoop.Correct.{main_ordered}
use poc_event_manager.LockeFreeQueue.Defs
use poc_event_manager.LockeFreeQueue.Defs.{State, init}
use poc_event_manager.LockeFreeQueue.Correct.{Reach-IsPrefix}
use poc_event_manager.LockeFreeQueue.Calls.{IsQuiet, emplace_back, swap, emplace_back_lem, swap_lem}

-- The members that some method reads.
pub record ManagerA : Type 0 where
  pub tx_event : PipedEvent
  pub tx_queue : State Event
  pub counters : Counters

abbrev pub new_manager : PipedEvent → ManagerA
new_manager e = record { tx_event = e; tx_queue = init; counters = zero_counters }

-- `fds` is what `pipe` returned.
unfoldable pub manager_a : Option (ℤ × ℤ) → Option ManagerA
manager_a fds = construct fds >>= (λ e. some (new_manager e))

-- The draws are what the two calls of random_int_in_range return; the first event is thrown away.
-- The manager's thread is the only one that appends.
unfoldable pub run_impl : ℤ × ℤ → ManagerA → Option ManagerA
run_impl draws m = do
  q ← emplace_back 0 (event_a draws.1) m.tx_queue
  some (record m { tx_queue = q; counters = increment_tx m.counters; tx_event = fire m.tx_event })

unfoldable pub consume_event : Event → ManagerA → ManagerA
consume_event e m = record m { counters = increment_rx m.counters }

-- The list `events` is empty at first, so it holds what this swap has put out; then the signal is
-- reset.
unfoldable pub produce : ManagerA → Option (List Event × ManagerA)
produce m = do
  q ← swap m.tx_queue
  some (
    drop (length m.tx_queue.received) q.received,
    record m { tx_queue = q; tx_event = consume m.tx_event },
  )

abbrev pub manager_ops : IManager (ℤ × ℤ) Event ManagerA
manager_ops = record {
  get_sources = λ m. m.tx_event.source;
  pre_run_impl = λ m. m;
  run_impl = run_impl;
  consume = consume_event;
  produce = λ i m. produce m;
  thread_name = "ManagerA";
}

-- From the results of `pipe`, epoll_create1 and epoll_ctl, and a schedule.
unfoldable pub main : Option (ℤ × ℤ) → ℤ → ℤ → List (Turn (ℤ × ℤ)) → Option (Program ManagerA)
main fds created ctl ts =
    manager_a fds >>= (λ m. start manager_ops created ctl m >>= run manager_ops ts)

-- What was appended and not yet put out.
abbrev pub queued : ManagerA → List Event
queued m = drop (length m.tx_queue.received) m.tx_queue.sent

received_bound :
    (m : ManagerA) → IsQuiet m.tx_queue → length m.tx_queue.received ≤ length m.tx_queue.sent
received_bound m v =
    let (rest, e) = Reach-IsPrefix v.reach in
    omega (arith, ap length e, length-append m.tx_queue.received rest)

pub run_lem :
    (draws : ℤ × ℤ) (m : ManagerA)
    → IsQuiet m.tx_queue
    → (m' : ManagerA) × (run_impl draws m ≡ some m')
      × IsQuiet m'.tx_queue
      × (queued m' ≡ queued m ++ event_a draws.1 ∷ [])
      × (m'.counters ≡ increment_tx m.counters)
unfolding run_impl
run_lem draws m v =
    let (q, e, quiet, sent, received) = emplace_back_lem 0 (event_a draws.1) m.tx_queue v in
    (
      record m { tx_queue = q; counters = increment_tx m.counters; tx_event = fire m.tx_event },
      rw e refl,
      quiet,
      rw (sent, received)
          (drop-append (length m.tx_queue.received) m.tx_queue.sent (event_a draws.1 ∷ [])
            (received_bound m v)),
      refl,
    )

pub produce_lem :
    (m : ManagerA)
    → IsQuiet m.tx_queue
    → (es : List Event) × (m' : ManagerA) × (produce m ≡ some (es, m'))
      × IsQuiet m'.tx_queue
      × (queued m ≡ es ++ queued m')
      × (m'.counters ≡ m.counters)
unfolding produce
produce_lem m v =
    let (q, e, quiet, sent, received) = swap_lem m.tx_queue v in
    let left : drop (length q.received) q.sent ≡ [] =
      ap (λ (l : List Event). drop (length q.received) l) (sent ∙ sym received)
      ∙ drop_all q.received in
    let out = drop (length m.tx_queue.received) q.received in
    (
      out,
      record m { tx_queue = q; tx_event = consume m.tx_event },
      rw e refl,
      quiet,
      ap (λ (l : List Event). drop (length m.tx_queue.received) l) (sym received)
          ∙ sym (append-nil out)
          ∙ ap (λ (l : List Event). out ++ l) (sym left),
      refl,
    )

unfoldable pub manager_laws : IsConserving manager_ops
unfolding consume_event
manager_laws = record {
  IsValid = λ m. IsQuiet m.tx_queue;
  queued = queued;
  counters = λ m. m.counters;
  offers = λ draws. event_a draws.1;
  run_lem = λ draws m v. let (m', e, quiet, q, c) = run_lem draws m v in (m', e, quiet, inl (q, c));
  produce_lem = λ i m v. produce_lem m v;
  consume_lem = λ e m v. (v, refl, refl);
  pre_run_lem = λ m. refl;
}

run_impl-undropped :
    (draws : ℤ × ℤ) (m m' : ManagerA)
    → IsQuiet m.tx_queue
    → run_impl draws m ≡ some m'
    → m'.counters.dropped ≡ m.counters.dropped
run_impl-undropped draws m m' v e =
    let (k, e', quiet, q, c) = run_lem draws m v in
    ap (λ (r : ManagerA). r.counters.dropped) (some-cancel (sym e ∙ e'))
    ∙ ap (λ (r : Counters). r.dropped) c

-- If `pipe` and epoll_create1 succeeded, the program runs under every schedule of whole calls with
-- no fault (swap ends, and no deleted node is touched). The events consumed, followed by those that
-- wait, are all the events that the calls of _runImpl made, in that order; they are as many as were
-- counted as sent, the consumed ones as many as were counted as received, and nothing was dropped.
pub main-swaps :
    (source sink created ctl : ℤ) (ts : List (Turn (ℤ × ℤ)))
    → (created ==ℤ minus_one) ≡ false
    → (p : Program ManagerA) × (main (some (source, sink)) created ctl ts ≡ some p)
      × (p.consumed ++ queued p.manager ≡ map (λ draws. event_a draws.1) (rounds true false ts))
      × (p.manager.counters.tx ≡ length p.consumed + length (queued p.manager))
      × (p.manager.counters.rx ≡ length p.consumed)
      × (p.manager.counters.dropped ≡ 0)
unfolding main manager_a construct manager_laws
main-swaps source sink created ctl ts h =
    let (p, e, order, d, u) =
      main_ordered manager_ops manager_laws run_impl-undropped created ctl
        (new_manager (record { source = source; sink = sink; fired = false; log = [] })) ts h
        (record { reach = Defs.start; producers = λ i. refl; consumer_out = refl }) refl refl in
    (p, e, order, d.sent, d.received, u)
