-- ===== src/App5.antt =====
-- app5.cpp: the queue is a moodycamel::ReaderWriterQueue.
use poc_event_manager.Prelude.{
  ℕ, suc, ◌≡◌, refl, sym, true, false, map, ◌⊎◌, inl, inr, Bool-cases, Option, some, ◌>>=◌, List,
  [], ◌∷◌, ◌++◌, ℤ, ◌==ℤ◌, minus_one, if◌then◌else◌, arith, length, append-nil, ◌∙◌, ap,
}
use poc_event_manager.PipedEvent.Defs.{PipedEvent, construct, fire, consume}
use poc_event_manager.Event.{Event, event_a}
use poc_event_manager.Counters.{
  Counters, zero_counters, increment_rx, increment_tx, increment_dropped,
}
use poc_event_manager.Queues.Drain.{drain, drain-takes_all}
use poc_event_manager.Queues.ReaderWriter.{
  ReaderWriterQueue, dequeue_round, dequeue_round-TakesFront,
}
use poc_event_manager.Delivery.{IsDelivered}
use poc_event_manager.Manager.Interface.{IManager, IsConserving}
use poc_event_manager.SelfLoop.Defs.{Turn, Program, start, run, rounds}
use poc_event_manager.SelfLoop.Correct.{main_fresh}

abbrev pub max_queue_size : ℕ
max_queue_size = 5000000

pub record ManagerA (Q : Type 0) : Type 0 where
  pub tx_event : PipedEvent
  pub tx_queue : Q
  pub counters : Counters

module _ {Q : Type 0} (lib : ReaderWriterQueue Event Q) where
  open lib use {make, enqueue, contents, make_empty, enqueue_back}

  abbrev pub new_manager : PipedEvent → ManagerA Q
  new_manager e = record { tx_event = e; tx_queue = make max_queue_size; counters = zero_counters }

  -- `fds` is what `pipe` returned.
  unfoldable pub manager_a : Option (ℤ × ℤ) → Option (ManagerA Q)
  manager_a fds = construct fds >>= (λ e. some (new_manager e))

  -- `draw` is what random_int_in_range returns.
  unfoldable pub run_impl : ℤ → ManagerA Q → ManagerA Q
  run_impl draw m =
      let r = enqueue (event_a draw) m.tx_queue in
      if r.0
      then record m {
        tx_queue = r.1;
        counters = increment_tx m.counters;
        tx_event = fire m.tx_event;
      }
      else record m { tx_queue = r.1; counters = increment_dropped m.counters }

  unfoldable pub consume_event : Event → ManagerA Q → ManagerA Q
  consume_event e m = record m { counters = increment_rx m.counters }

  -- Produce empties the queue, then resets the signal. The loop's fuel is one more than the queue
  -- holds.
  unfoldable pub produce : ManagerA Q → Option (List Event × ManagerA Q)
  produce m =
      drain (dequeue_round lib) (suc (length (contents m.tx_queue))) m.tx_queue []
      >>= (λ r. some (r.0, record m { tx_queue = r.1; tx_event = consume m.tx_event }))

  abbrev pub manager_ops : IManager ℤ Event (ManagerA Q)
  manager_ops = record {
    get_sources = λ m. m.tx_event.source;
    pre_run_impl = λ m. m;
    run_impl = λ i m. some (run_impl i m);
    consume = consume_event;
    produce = λ i m. produce m;
    thread_name = "ManagerA";
  }

  -- From the results of `pipe`, epoll_create1 and epoll_ctl, and a schedule.
  unfoldable pub main : Option (ℤ × ℤ) → ℤ → ℤ → List (Turn ℤ) → Option (Program (ManagerA Q))
  main fds created ctl ts =
      manager_a fds >>= (λ m. start manager_ops created ctl m >>= run manager_ops ts)

  pub run_lem :
      (draw : ℤ) (m : ManagerA Q)
      → ((contents (run_impl draw m).tx_queue ≡ contents m.tx_queue ++ event_a draw ∷ [])
          × ((run_impl draw m).counters ≡ increment_tx m.counters))
        ⊎ ((contents (run_impl draw m).tx_queue ≡ contents m.tx_queue)
            × ((run_impl draw m).counters ≡ increment_dropped m.counters))
  unfolding run_impl
  run_lem draw m = elim (Bool-cases (enqueue (event_a draw) m.tx_queue).0) [
    | inl e ↦ inl (ground (arith, e, enqueue_back (event_a draw) m.tx_queue), rw e refl)
    | inr e ↦ inr (ground (arith, e, enqueue_back (event_a draw) m.tx_queue), rw e refl)
  ]

  pub produce_lem :
      (m : ManagerA Q)
      → (es : List Event) × (m' : ManagerA Q) × (produce m ≡ some (es, m'))
        × Unit {0}
        × (contents m.tx_queue ≡ es ++ contents m'.tx_queue)
        × (m'.counters ≡ m.counters)
  unfolding produce
  produce_lem m =
      let (q', taken, empty) =
        drain-takes_all contents (dequeue_round lib) (dequeue_round-TakesFront lib)
          (suc (length (contents m.tx_queue))) (contents m.tx_queue) m.tx_queue [] refl
          (omega arith) in
      (
        contents m.tx_queue,
        record m { tx_event = consume m.tx_event; tx_queue = q' },
        rw taken,
        tt,
        sym (append-nil (contents m.tx_queue))
            ∙ ap (λ (l : List Event). contents m.tx_queue ++ l) (sym empty),
        refl,
      )

  unfoldable pub manager_laws : IsConserving manager_ops
  unfolding consume_event
  manager_laws = record {
    IsValid = λ m. Unit {0};
    queued = λ m. contents m.tx_queue;
    counters = λ m. m.counters;
    offers = event_a;
    run_lem = λ i m v. (run_impl i m, refl, tt, run_lem i m);
    produce_lem = λ i m v. produce_lem m;
    consume_lem = λ e m v. (tt, refl, refl);
    pre_run_lem = λ m. refl;
  }

  -- With a queue that keeps its documented promises: if `pipe` and epoll_create1 succeeded, the
  -- program runs under every schedule with no fault (the loop in Produce ends). The events
  -- consumed, followed by those that wait, are a subsequence of the events that the calls of
  -- _runImpl made; the consumed ones are as many as were counted as received, both together as many
  -- as were counted as sent, and all that were made as many as were counted as sent or dropped.
  pub main-dequeues :
      (source sink created ctl : ℤ) (ts : List (Turn ℤ))
      → (created ==ℤ minus_one) ≡ false
      → (p : Program (ManagerA Q)) × (main (some (source, sink)) created ctl ts ≡ some p)
        × IsDelivered
            (map event_a (rounds true false ts))
            p.consumed
            (contents p.manager.tx_queue)
            p.manager.counters
  unfolding main manager_a construct manager_laws
  main-dequeues source sink created ctl ts h =
      main_fresh manager_ops manager_laws created ctl
        (new_manager (record { source = source; sink = sink; fired = false; log = [] })) ts h tt
        (make_empty max_queue_size) refl
