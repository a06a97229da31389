-- ===== src/SelfLoop/Invariant.antt =====
-- The main functions of app1.cpp and its likes: properties that each call of the manager keeps.
-- A property is about what the calls of _runImpl took so far and the events consumed so far, both
-- oldest first, and the manager. While events that Produce returned are still to be consumed,
-- another property stands in.
use poc_event_manager.Prelude.{
  ◌≡◌, refl, sym, subst, true, false, some, ◌>>=◌, List, [], ◌∷◌, ◌++◌, append-nil, append_assoc, ℤ,
  ◌==ℤ◌, minus_one, inl, inr, lookup, Bool-cases, Option-cases, int_eq,
}
use poc_event_manager.Event.{Event}
use poc_event_manager.EventPoller.Defs.{EventPoller, consume_all, execute, execute_all}
use poc_event_manager.Manager.Interface.{IManager}
use poc_event_manager.SelfLoop.Defs.{
  Turn, thread, wait, signal, Program, objects, start, manager-start, start_total, turn, run,
  rounds, Store,
}

pub record IsKept {In M : Type 0} (ops : IManager In Event M)
    (P : List In → List Event → M → Type 0) (Mid : List Event → List In → List Event → M → Type 0)
    : Type 0 where
  pub run_keeps :
      (i : In) (past : List In) (done : List Event) (m : M)
      → P past done m
      → (m' : M) × (ops.run_impl i m ≡ some m') × P (past ++ i ∷ []) done m'
  pub produce_keeps :
      (i : In) (past : List In) (done : List Event) (m : M)
      → P past done m
      → (es : List Event) × (m' : M) × (ops.produce i m ≡ some (es, m')) × Mid es past done m'
  pub consume_keeps :
      (e : Event) (es : List Event) (past : List In) (done : List Event) (m : M)
      → Mid (e ∷ es) past done m
      → Mid es past (done ++ e ∷ []) (ops.consume e m)
  pub all_consumed :
      (past : List In) (done : List Event) (m : M) → Mid [] past done m → P past done m
  pub pre_run_keeps : (m : M) → P [] [] m → P [] [] (ops.pre_run_impl m)

module _ {In M : Type 0} (ops : IManager In Event M) (P : List In → List Event → M → Type 0)
    (Mid : List Event → List In → List Event → M → Type 0) (kept : IsKept ops P Mid) where
  open kept use {run_keeps, consume_keeps, all_consumed, produce_keeps, pre_run_keeps}

  -- As P, of the memory that the poller works on.
  abbrev On : List In → Store M → Type 0
  On past s = P past s.consumed s.manager

  consume_all-keeps :
      (i : In) (es : List Event) (past : List In) (s : Store M)
      → Mid es past s.consumed s.manager
      → On past (consume_all (objects ops i) tt es s)
  unfolding consume_all
  consume_all-keeps i [] past s h = all_consumed past s.consumed s.manager h
  consume_all-keeps i (e ∷ es) past s h =
      consume_all-keeps i es past
        (record { manager = ops.consume e s.manager; consumed = s.consumed ++ e ∷ [] })
        (consume_keeps e es past s.consumed s.manager h)

  execute-keeps :
      (i : In) (poller : EventPoller (Unit {0}) (Unit {0})) (fd : ℤ) (past : List In) (s : Store M)
      → On past s
      → (s' : Store M) × (execute (objects ops i) poller fd s ≡ some s') × On past s'
  unfolding execute
  execute-keeps i poller fd past s h = elim (Option-cases (lookup fd poller.watchers)) [
    | inl e ↦ (s, rw (e, execute), h)
    | inr (pair, e) ↦
        let (es, m', made, mid) = produce_keeps i past s.consumed s.manager h in
        let left = record s { manager = m' } in
        (
          consume_all (objects ops i) tt es left,
          rw (e, execute, made),
          consume_all-keeps i es past left mid,
        )
  ]

  execute_all-keeps :
      (i : In) (poller : EventPoller (Unit {0}) (Unit {0})) (fds : List ℤ) (past : List In)
      (s : Store M)
      → On past s
      → (s' : Store M) × (execute_all (objects ops i) poller fds s ≡ some s') × On past s'
  unfolding execute_all
  execute_all-keeps i poller [] past s h = (s, refl, h)
  execute_all-keeps i poller (fd ∷ fds) past s h =
      let (s', e, h') = execute-keeps i poller fd past s h in
      let (s'', e', h'') = execute_all-keeps i poller fds past s' h' in (s'', rw e e', h'')

  -- One turn, and what the calls of _runImpl take in it and in those after it.
  turn-keeps :
      (t : Turn In) (ts : List (Turn In)) (past : List In) (p : Program M)
      → P past p.consumed p.manager
      → (p' : Program M) × (past' : List In) × (turn ops t p ≡ some p')
        × P past' p'.consumed p'.manager
        × (past ++ rounds p.running p.stopped (t ∷ ts) ≡ past' ++ rounds p'.running p'.stopped ts)
  unfolding turn rounds
  turn-keeps (thread i) ts past p h = elim (Bool-cases p.stopped) [
    | inl e ↦ (p, past, rw (e, turn), h, rw e)
    | inr e ↦
        let (m', made, h') = run_keeps i past p.consumed p.manager h in
        (
          record p { manager = m' },
          past ++ i ∷ [],
          rw (e, made),
          h',
          rw e (sym (append_assoc past (i ∷ []) (rounds p.running false ts))),
        )
  ]
  turn-keeps (wait i ready) ts past p h = elim (Bool-cases p.stopped) [
    | inl e ↦ (p, past, rw (e, turn), h, rw e)
    | inr e ↦ elim (Bool-cases p.running) [
      | inl going ↦
          let store : Store M = record { manager = p.manager; consumed = p.consumed } in
          let (s', made, h') = execute_all-keeps i p.poller ready past store h in
          (
            record p { manager = s'.manager; consumed = s'.consumed },
            past,
            rw (e, going, made),
            h',
            rw (e, going),
          )
      | inr over ↦ (record p { stopped = true }, past, rw (e, over), h, rw (e, over))
    ]
  ]
  turn-keeps signal ts past p h = (record p { running = false }, past, refl, h, refl)

  run-keeps :
      (ts : List (Turn In)) (past : List In) (p : Program M)
      → P past p.consumed p.manager
      → (p' : Program M) × (run ops ts p ≡ some p')
        × P (past ++ rounds p.running p.stopped ts) p'.consumed p'.manager
  unfolding run rounds
  run-keeps [] past p h = (p, refl, subst (λ l. P l p.consumed p.manager) (sym (append-nil past)) h)
  run-keeps (t ∷ ts) past p h =
      let (q, past', e, h', same) = turn-keeps t ts past p h in
      let (r, e', h'') = run-keeps ts past' q h' in
      (r, rw e e', subst (λ l. P l r.consumed r.manager) (sym same) h'')

  pub main-keeps :
      (created ctl : ℤ) (m : M) (ts : List (Turn In))
      → (created ==ℤ minus_one) ≡ false
      → P [] [] m
      → (p : Program M) × ((start ops created ctl m >>= run ops ts) ≡ some p)
        × P (rounds true false ts) p.consumed p.manager
  main-keeps created ctl m ts c h =
      let (q, started) = start_total ops created ctl m c in
      let (same, fresh, on, off) = manager-start ops created ctl m q started in
      let (p, e, h') = run-keeps ts [] q (rw (same, fresh) (pre_run_keeps m h)) in
      (p, rw started e, rw (sym on, sym off) h')
