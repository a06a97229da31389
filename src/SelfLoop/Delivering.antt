-- ===== src/SelfLoop/Delivering.antt =====
-- The main functions of app1.cpp and its likes: which events are consumed, in which order, and how
-- they are counted.
use poc_event_manager.Prelude.{
  ◌≡◌, ap, sym, subst, ◌∙◌, false, true, some, ◌>>=◌, List, [], ◌∷◌, ◌++◌, map, map-append,
  append_assoc, append-nil, inl, inr, ℤ, ◌==ℤ◌, minus_one,
}
use poc_event_manager.Event.{Event}
use poc_event_manager.Counters.{increment_rx}
use poc_event_manager.Delivery.{
  IsDelivered, send-IsDelivered, drop-IsDelivered, consume-IsDelivered,
}
use poc_event_manager.Manager.Interface.{IManager, IsConserving}
use poc_event_manager.SelfLoop.Defs.{Turn, Program, start, run, rounds}
use poc_event_manager.SelfLoop.Invariant.{IsKept, main-keeps}

module _ {In M : Type 0} (ops : IManager In Event M) (laws : IsConserving ops) where
  open laws use {IsValid, queued, counters, offers, run_lem, produce_lem, consume_lem, pre_run_lem}

  -- After events of which `made` were made and `taken` consumed before the program started. `es`
  -- were taken from the queue and are still to be consumed.
  pub record Delivered (made taken es : List Event) (past : List In) (done : List Event) (m : M)
      : Type 0 where
    pub valid : IsValid m
    pub delivered :
        IsDelivered (made ++ map offers past) (taken ++ done) (es ++ queued m) (counters m)

  module _ (made taken : List Event) where
    made_snoc :
        (past : List In) (i : In)
        → (made ++ map offers past) ++ offers i ∷ [] ≡ made ++ map offers (past ++ i ∷ [])
    made_snoc past i =
        append_assoc made (map offers past) (offers i ∷ [])
        ∙ ap (λ l. made ++ l) (sym (map-append offers past (i ∷ [])))

    pub run-Delivered :
        (i : In) (es : List Event) (past : List In) (done : List Event) (m : M)
        → Delivered made taken es past done m
        → (m' : M) × (ops.run_impl i m ≡ some m') × Delivered made taken es (past ++ i ∷ []) done m'
    run-Delivered i es past done m d =
        let (m', e, v, how) = run_lem i m d.valid in
        (
          m',
          e,
          record {
            valid = v;
            delivered =
                subst (λ l. IsDelivered l (taken ++ done) (es ++ queued m') (counters m'))
                  (made_snoc past i)
                  (elim how [
                    | inl (q, c) ↦
                        rw (q, c, ← append_assoc es (queued m) (offers i ∷ []))
                          (send-IsDelivered (offers i) (made ++ map offers past) (taken ++ done)
                            (es ++ queued m) (counters m) d.delivered)
                    | inr (q, c) ↦
                        rw (q, c)
                          (drop-IsDelivered (offers i) (made ++ map offers past) (taken ++ done)
                            (es ++ queued m) (counters m) d.delivered)
                  ]);
          },
        )

    pub produce-Delivered :
        (i : In) (past : List In) (done : List Event) (m : M)
        → Delivered made taken [] past done m
        → (es : List Event) × (m' : M) × (ops.produce i m ≡ some (es, m'))
          × Delivered made taken es past done m'
    produce-Delivered i past done m d =
        let (es, m', e, v, q, c) = produce_lem i m d.valid in
        (es, m', e, record { valid = v; delivered = rw (sym q, c) d.delivered })

    pub consume-Delivered :
        (e : Event) (es : List Event) (past : List In) (done : List Event) (m : M)
        → Delivered made taken (e ∷ es) past done m
        → Delivered made taken es past (done ++ e ∷ []) (ops.consume e m)
    consume-Delivered e es past done m d =
        let (v, q, c) = consume_lem e m d.valid in
        record {
          valid = v;
          delivered =
              rw (q, c)
                (subst
                  (λ l.
                    IsDelivered (made ++ map offers past) l (es ++ queued m)
                      (increment_rx (counters m)))
                  (append_assoc taken done (e ∷ []))
                  (consume-IsDelivered e (made ++ map offers past) (taken ++ done) (es ++ queued m)
                    (counters m) d.delivered));
        }

    Delivered-kept : IsKept ops (Delivered made taken []) (Delivered made taken)
    Delivered-kept = record {
      run_keeps = λ i past done m. run-Delivered i [] past done m;
      produce_keeps = produce-Delivered;
      consume_keeps = consume-Delivered;
      all_consumed = λ past done m d. d;
      pre_run_keeps = λ m d. subst (λ k. Delivered made taken [] [] [] k) (sym (pre_run_lem m)) d;
    }

    -- A program over a manager that keeps the promises of IsConserving, started with a queue and
    -- counters that account for the events that were made and taken before: if epoll_create1
    -- succeeds, then under every schedule of the two threads and of signals the program runs on
    -- with no fault. The events consumed, followed by those that wait, are events that were made, in
    -- the order in which they were made, each as often at most; the first are as many as were
    -- counted as received, both together as many as were counted as sent, and all that were made
    -- as many as were counted as sent or dropped.
    pub main-IsDelivered :
        (created ctl : ℤ) (m : M) (ts : List (Turn In))
        → (created ==ℤ minus_one) ≡ false
        → IsValid m
        → IsDelivered made taken (queued m) (counters m)
        → (p : Program M) × ((start ops created ctl m >>= run ops ts) ≡ some p)
          × IsDelivered
              (made ++ map offers (rounds true false ts))
              (taken ++ p.consumed)
              (queued p.manager)
              (counters p.manager)
    main-IsDelivered created ctl m ts h v d =
        let (p, e, d') =
          main-keeps ops (Delivered made taken []) (Delivered made taken) Delivered-kept created ctl
            m ts h (record { valid = v; delivered = rw (append-nil made, append-nil taken) d }) in
        (p, e, d'.delivered)
