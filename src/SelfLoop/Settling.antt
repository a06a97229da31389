-- ===== src/SelfLoop/Settling.antt =====
-- The main loop of app1.cpp and its likes, call by call, does what whole turns do.
use poc_event_manager.Prelude.{
  Bool, true, false, Option, none, some, ◌>>=◌, List, [], ◌∷◌, ◌++◌, not, ℤ, lookup, int_eq, ◌≡◌,
  ◌∙◌, refl, sym, ap, subst, append-nil, append_assoc, Option-cases, inl, inr, some-cancel,
  >>=-eq-some, arith,
}
use poc_event_manager.Event.{Event}
use poc_event_manager.EventPoller.Defs.{EventPoller, consume_all, execute, execute_all}
use poc_event_manager.Manager.Interface.{IManager, consume1}
use poc_event_manager.SelfLoop.Defs.{
  Turn, thread, wait, Program, Store, objects, start, manager-start, turn, run, rounds,
}
use poc_event_manager.SelfLoop.Interleaved.{
  Move, thread_moves, main_moves, signalled, Moment, begin_execute, main_move, move, moves, enter,
  settled, main_of, main_turns, turns, Commutes,
}

module _ {In M : Type 0} (ops : IManager In Event M) where
  consume_all-consume1 :
      (i : In) (es : List Event) (s : Store M)
      → consume_all (objects ops i) tt es s
        ≡ record { manager = consume1 ops es s.manager; consumed = s.consumed ++ es }
  unfolding consume_all consume1
  consume_all-consume1 i [] s = cc (append-nil s.consumed)
  consume_all-consume1 i (e ∷ es) s =
      consume_all-consume1 i es
        (record { manager = ops.consume e s.manager; consumed = s.consumed ++ e ∷ [] })
      ∙ cc (append_assoc s.consumed (e ∷ []) es)

  run_impl-consume1 :
      Commutes ops
      → (i : In) (es : List Event) (m : M)
      → ops.run_impl i (consume1 ops es m) ≡ (ops.run_impl i m >>= (λ k. some (consume1 ops es k)))
  unfolding consume1
  run_impl-consume1 c i [] m = ground arith
  run_impl-consume1 c i (e ∷ es) m =
      ground (arith, run_impl-consume1 c i es (ops.consume e m), c i e m)

  -- What a move does, where its turns run.
  record IsMatched (s : Moment In M) (ts : List (Turn In)) (q : Program M) (t : Moment In M)
      : Type 0 where
    same : settled ops t ≡ q
    same_rounds :
        (rest : List (Turn In))
        → s.called ++ rounds (not s.stopped) s.stopped (ts ++ rest)
          ≡ t.called ++ rounds (not t.stopped) t.stopped rest

  -- In the loop, at any of its calls.
  abbrev in_loop : List Event → List ℤ → Bool → Moment In M → Moment In M
  in_loop es fds running s = record s {
    waiting = es;
    reports = fds;
    running = running;
    stopped = false;
  }

  -- A turn of the loop with one report, by what the report leads to.
  module _ (i : In) (fd : ℤ) (m : M) (done : List Event)
      (poller : EventPoller (Unit {0}) (Unit {0})) where
    abbrev looping : M → List Event → Program M
    looping k es = record {
      manager = k;
      consumed = es;
      poller = poller;
      running = true;
      stopped = false;
    }

    unwatched-turn :
        lookup fd poller.watchers ≡ none
        → run ops (wait i (fd ∷ []) ∷ []) (looping m done) ≡ some (looping m done)
    unfolding run turn execute_all execute
    unwatched-turn e = rw e

    faulty-turn :
        (w : Unit {0} × Unit {0})
        → lookup fd poller.watchers ≡ some w
        → ops.produce i m ≡ none
        → run ops (wait i (fd ∷ []) ∷ []) (looping m done) ≡ none
    unfolding run turn execute_all execute
    faulty-turn w e f = rw (e, execute, f)

    produced-turn :
        (w : Unit {0} × Unit {0}) (es : List Event) (m' : M)
        → lookup fd poller.watchers ≡ some w
        → ops.produce i m ≡ some (es, m')
        → run ops (wait i (fd ∷ []) ∷ []) (looping m done)
          ≡ some (looping (consume1 ops es m') (done ++ es))
    unfolding run turn execute_all execute
    produced-turn w es m' e f =
        rw (e, execute, f)
          (rw (consume_all-consume1 i es (record { manager = m'; consumed = done })) refl)

  execute-IsMatched :
      (i : In) (fd : ℤ) (fds : List ℤ) (running : Bool) (s : Moment In M) (q : Program M)
      → run ops (wait i (fd ∷ []) ∷ []) (settled ops (in_loop [] (fd ∷ fds) running s)) ≡ some q
      → (t : Moment In M) × (begin_execute ops i fd (in_loop [] fds running s) ≡ some t)
        × IsMatched (in_loop [] (fd ∷ fds) running s) (wait i (fd ∷ []) ∷ []) q t
  unfolding begin_execute consume1 rounds
  execute-IsMatched i fd fds running s q h = elim (Option-cases (lookup fd s.poller.watchers)) [
    | inl e ↦ (
      in_loop [] fds running s,
      rw (e, begin_execute),
      record {
        same = some-cancel (sym (unwatched-turn i fd s.manager (s.consumed ++ []) s.poller e) ∙ h);
        same_rounds = λ rest. refl;
      },
    )
    | inr (w, e) ↦ elim (Option-cases (ops.produce i s.manager)) [
      | inl f ↦ absurd (cc (faulty-turn i fd s.manager (s.consumed ++ []) s.poller w e f, h))
      | inr ((es, m'), f) ↦ (
        in_loop es fds running (record s { manager = m' }),
        rw (e, begin_execute, f),
        record {
          same = cc (
            append-nil s.consumed,
            some-cancel
                (sym (produced-turn i fd s.manager (s.consumed ++ []) s.poller w es m' e f) ∙ h),
          );
          same_rounds = λ rest. refl;
        },
      )
    ]
  ]

  main_move-IsMatched :
      (es : List Event) (fds : List ℤ) (running : Bool) (i : In) (ready : List ℤ) (s : Moment In M)
      (q : Program M)
      → run ops (main_turns ops es fds running i) (settled ops (in_loop es fds running s)) ≡ some q
      → (t : Moment In M) × (main_move ops es fds i ready (in_loop es fds running s) ≡ some t)
        × IsMatched (in_loop es fds running s) (main_turns ops es fds running i) q t
  unfolding main_turns main_move run rounds turn consume1
  main_move-IsMatched (e ∷ es) fds running i ready s q h = (
    record s {
      manager = ops.consume e s.manager;
      consumed = s.consumed ++ e ∷ [];
      waiting = es;
      reports = fds;
      running = running;
      stopped = false;
    },
    refl,
    record {
      same = cc (append_assoc s.consumed (e ∷ []) es, some-cancel h);
      same_rounds = λ rest. refl;
    },
  )
  main_move-IsMatched [] (fd ∷ fds) running i ready s q h = execute-IsMatched i fd fds running s q h
  main_move-IsMatched [] [] true i ready s q h =
      (in_loop [] ready true s, refl, record { same = some-cancel h; same_rounds = λ rest. refl })
  main_move-IsMatched [] [] false i ready s q h = (
    record s { waiting = []; reports = []; running = false; stopped = true },
    refl,
    record { same = some-cancel h; same_rounds = λ rest. refl },
  )

  thread_move-IsMatched :
      Commutes ops
      → (stopped : Bool) (i : In) (s : Moment In M) (q : Program M)
      → run ops (thread i ∷ []) (settled ops (record s { stopped = stopped })) ≡ some q
      → (t : Moment In M) × (move ops (thread_moves i) (record s { stopped = stopped }) ≡ some t)
        × IsMatched (record s { stopped = stopped }) (thread i ∷ []) q t
  unfolding move run turn rounds
  thread_move-IsMatched c true i s q h = (
    record s { stopped = true },
    refl,
    record { same = some-cancel h; same_rounds = λ rest. refl },
  )
  thread_move-IsMatched c false i s q h = elim (Option-cases (ops.run_impl i s.manager)) [
    | inl f ↦ absurd (cc (run_impl-consume1 c i s.waiting s.manager, f, h))
    | inr (m', f) ↦ (
      record s { manager = m'; called = s.called ++ i ∷ []; stopped = false },
      rw f,
      record {
        same = ground (arith, run_impl-consume1 c i s.waiting s.manager, f, h);
        same_rounds = λ rest. sym (append_assoc s.called (i ∷ []) (rounds true false rest));
      },
    )
  ]

  loop_move-IsMatched :
      (stopped : Bool) (i : In) (ready : List ℤ) (s : Moment In M) (q : Program M)
      → run ops
          (turns ops (main_moves i ready) (record s { stopped = stopped }))
          (settled ops (record s { stopped = stopped }))
        ≡ some q
      → (t : Moment In M) × (move ops (main_moves i ready) (record s { stopped = stopped })
          ≡ some t)
        × IsMatched
            (record s { stopped = stopped })
            (turns ops (main_moves i ready) (record s { stopped = stopped }))
            q
            t
  unfolding move turns run
  loop_move-IsMatched true i ready s q h = (
    record s { stopped = true },
    refl,
    record { same = some-cancel h; same_rounds = λ rest. refl },
  )
  loop_move-IsMatched false i ready s q h =
      main_move-IsMatched s.waiting s.reports s.running i ready s q h

  move-IsMatched :
      Commutes ops
      → (a : Move In) (s : Moment In M) (q : Program M)
      → run ops (turns ops a s) (settled ops s) ≡ some q
      → (t : Moment In M) × (move ops a s ≡ some t) × IsMatched s (turns ops a s) q t
  unfolding move turns run
  move-IsMatched c (thread_moves i) s q h = thread_move-IsMatched c s.stopped i s q h
  move-IsMatched c (main_moves i ready) s q h = loop_move-IsMatched s.stopped i ready s q h
  move-IsMatched c signalled s q h = (
    record s { running = false },
    refl,
    record { same = some-cancel h; same_rounds = λ rest. refl },
  )

  run-append :
      (ts us : List (Turn In)) (p q : Program M)
      → run ops ts p ≡ some q
      → run ops (ts ++ us) p ≡ run ops us q
  unfolding run
  run-append [] us p q e = ap (run ops us) (some-cancel e)
  run-append (t ∷ ts) us p q e =
      let (r, first, rest) = >>=-eq-some (turn ops t p) _ e in rw first (run-append ts us r q rest)

  moves-IsMatched :
      Commutes ops
      → (acts : List (Move In)) (s : Moment In M)
      → ((ts : List (Turn In)) → (p : Program M) × (run ops ts (settled ops s) ≡ some p))
      → (t : Moment In M) × (ts : List (Turn In)) × (moves ops acts s ≡ some t)
        × (run ops ts (settled ops s) ≡ some (settled ops t))
        × (t.called ≡ s.called ++ rounds (not s.stopped) s.stopped ts)
  unfolding moves rounds run
  moves-IsMatched c [] s total = (s, [], refl, refl, sym (append-nil s.called))
  moves-IsMatched c (a ∷ acts) s total =
      let (q, e) = total (turns ops a s) in
      let (t, moved, m) = move-IsMatched c a s q e in
      let (u, ts, e', ran, called) = moves-IsMatched c acts t (λ ts.
        let (p, k) = total (turns ops a s ++ ts) in
        (p, rw m.same (sym (run-append (turns ops a s) ts (settled ops s) q e) ∙ k))) in
      (
        u,
        turns ops a s ++ ts,
        rw moved e',
        run-append (turns ops a s) ts (settled ops s) q e
            ∙ subst (λ k. run ops ts k ≡ some (settled ops u)) m.same ran,
        called ∙ sym (m.same_rounds ts),
      )

  settled-enter :
      (p : Program M) → p.running ≡ true → p.stopped ≡ false → settled ops (enter ops p) ≡ p
  unfolding consume1
  settled-enter p on off = ground (arith, append-nil p.consumed, on, off)

  refines-from :
      Commutes ops
      → (o : Option (Program M)) (p : Program M) → o ≡ some p
      → p.running ≡ true
      → p.stopped ≡ false
      → ((ts : List (Turn In)) → (q : Program M) × ((o >>= run ops ts) ≡ some q))
      → (acts : List (Move In))
      → (s : Moment In M) × (ts : List (Turn In)) × ((o >>= (λ k. moves ops acts (enter ops k)))
          ≡ some s)
        × ((o >>= run ops ts) ≡ some (settled ops s))
        × (s.called ≡ rounds true false ts)
  refines-from c o p started on off total acts =
      let same = settled-enter p on off in
      let (s, ts, moved, ran, called) =
        moves-IsMatched c acts (enter ops p)
          (λ ts. let (q, e) = total ts in (q, rw same (rw started at e))) in
      (
        s,
        ts,
        rw started moved,
        rw started (subst (λ k. run ops ts k ≡ some (settled ops s)) same ran),
        subst (λ b. s.called ≡ rounds (not b) b ts) off called,
      )

  -- Where _runImpl and Consume commute and the program runs under every schedule of whole turns of
  -- its loop, it also runs with no fault where the manager's thread and the signals come between
  -- any two calls of the loop, in Execute too; and once the events that wait there were consumed,
  -- it is where a schedule of whole turns leads, with the same calls of _runImpl.
  pub main-refines :
      Commutes ops
      → (created ctl : ℤ) (m : M)
      → ((ts : List (Turn In))
          → (p : Program M) × ((start ops created ctl m >>= run ops ts) ≡ some p))
      → (acts : List (Move In))
      → (s : Moment In M) × (ts : List (Turn In)) × (main_of ops (some m) created ctl acts ≡ some s)
        × ((start ops created ctl m >>= run ops ts) ≡ some (settled ops s))
        × (s.called ≡ rounds true false ts)
  unfolding main_of
  main-refines c created ctl m total acts =
      let (p, started, _) = >>=-eq-some (start ops created ctl m) _ (total []).1 in
      let (_, _, on, off) = manager-start ops created ctl m p started in
      refines-from c (start ops created ctl m) p started on off total acts

  -- What holds of the program under every schedule of whole turns holds call by call, of the
  -- program once the events that wait were consumed.
  pub main-transfer :
      Commutes ops
      → (made : Option M) (created ctl : ℤ) (P : List In → Program M → Type 0)
      → ((ts : List (Turn In))
          → (p : Program M) × ((made >>= (λ m. start ops created ctl m >>= run ops ts)) ≡ some p)
            × P (rounds true false ts) p)
      → (acts : List (Move In))
      → (s : Moment In M) × (main_of ops made created ctl acts ≡ some s)
        × P s.called (settled ops s)
  unfolding main_of
  main-transfer c none created ctl P whole acts = absurd (cc (whole []).1)
  main-transfer c (some m) created ctl P whole acts =
      let (s, ts, moved, ran, called) =
        main-refines c created ctl m (λ ts. let (p, e, h) = whole ts in (p, e)) acts in
      let (p, e, h) = whole ts in
      (
        s,
        moved,
        subst (λ k. P k (settled ops s)) (sym called)
            (subst (P (rounds true false ts)) (some-cancel (sym e ∙ ran)) h),
      )
