-- ===== src/App8/Balance.antt =====
-- What is counted, and in which order the two queues are emptied.
use poc_event_manager.Prelude.{
  ◌+◌, ◌≤◌, ◌∙◌, Bool, map, map-append, ◌++◌, count_if, count_if_snoc, length-map, ◌≡◌, refl, true,
  false, some, List, [], ◌∷◌, ℤ, ◌==ℤ◌, minus_one, arith, length, length-append,
}
use poc_event_manager.PipedEvent.Defs.{construct}
use poc_event_manager.Event.{Event, event_a}
use poc_event_manager.SelfLoop.Defs.{Turn, Program, rounds}
use poc_event_manager.SelfLoop.Invariant.{IsKept, main-keeps}
use poc_event_manager.App8.Defs.{
  ManagerA, Env, new_manager, manager_a, run_impl, consume_event, produce, manager_ops, main,
}

-- The events that the calls of _runImpl make.
abbrev pub made : List Env → List Event
made past = map (λ env. event_a env.draw) past

-- `es` were taken by Produce and are still to be consumed.
record Balanced (es : List Event) (past : List Env) (done : List Event) (m : ManagerA)
    : Type 0 where
  kept :
      (t : Event → Bool)
      → count_if t done + count_if t es + count_if t m.tx_queue1 + count_if t m.tx_queue2
        ≤ count_if t (made past)
  sent : m.counters.tx ≡ length done + length es + length m.tx_queue1 + length m.tx_queue2
  received : m.counters.rx ≡ length done
  accounted : m.counters.tx + m.counters.dropped ≡ length (made past)

run_impl-Balanced :
    (env : Env) (past : List Env) (done : List Event) (m : ManagerA)
    → Balanced [] past done m
    → Balanced [] (past ++ env ∷ []) done (run_impl env m)
unfolding run_impl
run_impl-Balanced env past done m b =
    let x = event_a env.draw in
    let more = map-append (λ (i : Env). event_a i.draw) past (env ∷ []) in
    record {
      kept = λ t. rw more (
          ground (
            arith,
            b.kept t,
            count_if_snoc t m.tx_queue1 x,
            count_if_snoc t m.tx_queue2 x,
            count_if_snoc t (made past) x,
          ));
      sent =
          ground
            (arith, b.sent, length-append m.tx_queue1 (x ∷ []), length-append m.tx_queue2 (x ∷ []));
      received = ground (arith, b.received);
      accounted = rw more (ground (arith, b.accounted, length-append (made past) (x ∷ [])));
    }

produce-Balanced :
    (env : Env) (past : List Env) (done : List Event) (m : ManagerA)
    → Balanced [] past done m
    → Balanced (produce env m).0 past done (produce env m).1
unfolding produce
produce-Balanced env past done m b = record {
  kept = λ t. ground (arith, b.kept t);
  sent = ground (arith, b.sent);
  received = ground (arith, b.received);
  accounted = ground (arith, b.accounted);
}

consume_event-Balanced :
    (e : Event) (es : List Event) (past : List Env) (done : List Event) (m : ManagerA)
    → Balanced (e ∷ es) past done m
    → Balanced es past (done ++ e ∷ []) (consume_event e m)
unfolding consume_event
consume_event-Balanced e es past done m b = record {
  kept = λ t. ground (arith, b.kept t, count_if_snoc t done e);
  sent = omega (arith, b.sent, length-append done (e ∷ []));
  received = omega (arith, b.received, length-append done (e ∷ []));
  accounted = b.accounted;
}

Balanced-kept : IsKept manager_ops (Balanced []) Balanced
Balanced-kept = record {
  run_keeps = λ i past done m b. (run_impl i m, refl, run_impl-Balanced i past done m b);
  produce_keeps =
      λ i past done m b. ((produce i m).0, (produce i m).1, refl, produce-Balanced i past done m b);
  consume_keeps = consume_event-Balanced;
  all_consumed = λ past done m b. b;
  pre_run_keeps = λ m b. b;
}

-- If `pipe` and epoll_create1 succeeded, the program runs under every schedule, whatever the tries
-- of the mutexes give. For every test of events, no more of those that were consumed or wait in one
-- of the queues pass it than of those that the calls of _runImpl made: none comes twice, and none
-- from nowhere. The consumed ones are as many as were counted as received, those and the waiting
-- ones as many as were counted as sent, and all that were made as many as were counted as sent or
-- dropped.
pub main-balanced :
    (source sink created ctl : ℤ) (ts : List (Turn Env)) (t : Event → Bool)
    → (created ==ℤ minus_one) ≡ false
    → (p : Program ManagerA) × (main (some (source, sink)) created ctl ts ≡ some p)
      × (count_if t p.consumed + count_if t p.manager.tx_queue1 + count_if t p.manager.tx_queue2
          ≤ count_if t (made (rounds true false ts)))
      × (p.manager.counters.rx ≡ length p.consumed)
      × (p.manager.counters.tx
          ≡ length p.consumed + length p.manager.tx_queue1 + length p.manager.tx_queue2)
      × (p.manager.counters.tx + p.manager.counters.dropped ≡ length (rounds true false ts))
unfolding main manager_a construct
main-balanced source sink created ctl ts t h =
    let (p, e, b) =
      main-keeps manager_ops (Balanced []) Balanced Balanced-kept created ctl
        (new_manager (record { source = source; sink = sink; fired = false; log = [] })) ts h
        (record { kept = λ t. omega arith; sent = refl; received = refl; accounted = refl }) in
    (
      p,
      e,
      omega (arith, b.kept t),
      b.received,
      omega (arith, b.sent),
      b.accounted ∙ length-map (λ (i : Env). event_a i.draw) (rounds true false ts),
    )
