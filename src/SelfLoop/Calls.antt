-- ===== src/SelfLoop/Calls.antt =====
-- The main loop of app1.cpp and its likes, call by call: which events are consumed, in which order,
-- and how they are counted.
use poc_event_manager.Prelude.{
  true, false, some, List, [], ◌∷◌, ◌++◌, map, ℤ, lookup, int_eq, ◌≡◌, refl, Bool-cases,
  Option-cases, inl, inr, ◌==ℤ◌, minus_one,
}
use poc_event_manager.Event.{Event}
use poc_event_manager.Counters.{zero_counters}
use poc_event_manager.Delivery.{IsDelivered, begin-IsDelivered}
use poc_event_manager.Manager.Interface.{IManager, IsConserving}
use poc_event_manager.SelfLoop.Defs.{manager-start, start_total}
use poc_event_manager.SelfLoop.Delivering.{
  Delivered, run-Delivered, produce-Delivered, consume-Delivered,
}
use poc_event_manager.SelfLoop.Interleaved.{
  Move, thread_moves, main_moves, signalled, Moment, begin_execute, main_move, move, moves, enter,
  main_of,
}

module _ {In M : Type 0} (ops : IManager In Event M) (laws : IsConserving ops) where
  open laws use {IsValid, queued, counters, offers, pre_run_lem}

  abbrev Delivers : Moment In M → Type 0
  Delivers s = Delivered ops laws [] [] s.waiting s.called s.consumed s.manager

  main_move-Delivers :
      (es : List Event) (fds : List ℤ) (i : In) (ready : List ℤ) (s : Moment In M)
      → Delivers (record s { waiting = es; reports = fds })
      → (t : Moment In M) × (main_move ops es fds i ready (record s { waiting = es; reports = fds })
          ≡ some t)
        × Delivers t
  unfolding main_move begin_execute
  main_move-Delivers (e ∷ es) fds i ready s d =
      (_, refl, consume-Delivered ops laws [] [] e es s.called s.consumed s.manager d)
  main_move-Delivers [] (fd ∷ fds) i ready s d = elim (Option-cases (lookup fd s.poller.watchers)) [
    | inl e ↦ (record s { waiting = []; reports = fds }, rw (e, begin_execute), d)
    | inr (w, e) ↦
        let (es, m', made, d') =
          produce-Delivered ops laws [] [] i s.called s.consumed s.manager d in
        (record s { waiting = es; reports = fds; manager = m' }, rw (e, begin_execute, made), d')
  ]
  main_move-Delivers [] [] i ready s d = elim (Bool-cases s.running) [
    | inl e ↦ (record s { waiting = []; reports = ready }, rw e, d)
    | inr e ↦ (record s { waiting = []; reports = []; stopped = true }, rw e, d)
  ]

  move-Delivers :
      (a : Move In) (s : Moment In M)
      → Delivers s
      → (t : Moment In M) × (move ops a s ≡ some t) × Delivers t
  unfolding move
  move-Delivers (thread_moves i) s d = elim (Bool-cases s.stopped) [
    | inl e ↦ (s, rw e, d)
    | inr e ↦
        let (m', made, d') =
          run-Delivered ops laws [] [] i s.waiting s.called s.consumed s.manager d in
        (record s { manager = m'; called = s.called ++ i ∷ [] }, rw (e, made), d')
  ]
  move-Delivers (main_moves i ready) s d = elim (Bool-cases s.stopped) [
    | inl e ↦ (s, rw e, d)
    | inr e ↦
        let (t, made, d') = main_move-Delivers s.waiting s.reports i ready s d in
        (t, simp e made, d')
  ]
  move-Delivers signalled s d = (record s { running = false }, refl, d)

  moves-Delivers :
      (acts : List (Move In)) (s : Moment In M)
      → Delivers s
      → (t : Moment In M) × (moves ops acts s ≡ some t) × Delivers t
  unfolding moves
  moves-Delivers [] s d = (s, refl, d)
  moves-Delivers (a ∷ acts) s d =
      let (t, e, d') = move-Delivers a s d in
      let (u, e', d'') = moves-Delivers acts t d' in (u, rw e e', d'')

  -- A program over a new manager that keeps the promises of IsConserving: if epoll_create1
  -- succeeds, it runs with no fault wherever the manager's thread and signals come between the calls of
  -- its loop, in Execute too. The events consumed, those that Produce returned and Execute has
  -- still to hand over, and those that are queued are, in this order, a subsequence of the events that the
  -- calls of _runImpl made; the consumed ones are as many as were counted as received, all three
  -- together as many as were counted as sent, and all that were made as many as were counted as sent or dropped.
  pub moves-IsDelivered :
      (created ctl : ℤ) (m : M) (acts : List (Move In))
      → (created ==ℤ minus_one) ≡ false
      → IsValid m
      → queued m ≡ []
      → counters m ≡ zero_counters
      → (s : Moment In M) × (main_of ops (some m) created ctl acts ≡ some s)
        × IsDelivered
            (map offers s.called)
            s.consumed
            (s.waiting ++ queued s.manager)
            (counters s.manager)
  unfolding main_of
  moves-IsDelivered created ctl m acts h v q c =
      let (p, started) = start_total ops created ctl m h in
      let (same, fresh, _, _) = manager-start ops created ctl m p started in
      let (s, e, d) = moves-Delivers acts (enter ops p) (
        rw (same, fresh, pre_run_lem m)
          (record { valid = v; delivered = rw (q, c) begin-IsDelivered })) in
      (s, rw started e, d.delivered)
