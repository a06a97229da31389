-- ===== src/Loop/Keeping.antt =====
-- Properties that each call of the loop and of the threads keeps. A property is about the events
-- that wait, the calls of _runImpl so far, oldest first, and the objects.
use poc_event_manager.Prelude.{
  ◌≡◌, refl, true, false, not, some, List, [], ◌∷◌, ◌++◌, ℤ, Bool-cases, inl, inr,
}
use poc_event_manager.Loop.Defs.{Machine}
use poc_event_manager.Loop.Calls.{
  Move, thread_moves, main_moves, signalled, Moment, main_move, move, moves, enter,
}

pub record IsKeptByCalls {X W D S : Type 0} (machine : Machine X W D S)
    (P : List D → List X → S → Type 0) : Type 0 where
  pub run_keeps :
      (x : X) (ds : List D) (past : List X) (s : S)
      → P ds past s
      → (s' : S) × (machine.run_impl x s ≡ some s') × P ds (past ++ x ∷ []) s'
  pub take_keeps :
      (w : W) (fd : ℤ) (past : List X) (s : S)
      → P [] past s
      → (ds : List D) × (s' : S) × (machine.take w fd s ≡ some (ds, s')) × P ds past s'
  pub deliver_keeps :
      (d : D) (ds : List D) (past : List X) (s : S)
      → P (d ∷ ds) past s
      → P ds past (machine.deliver d s)

module _ {X W D S : Type 0} (machine : Machine X W D S) (P : List D → List X → S → Type 0)
    (kept : IsKeptByCalls machine P) where
  main_move-keeps :
      (ds : List D) (fds : List ℤ) (w : W) (m : Moment X D S)
      → P ds m.called m.system
      → (m' : Moment X D S) × (main_move machine ds fds w (record m { waiting = ds; left = fds })
          ≡ some m')
        × P m'.waiting m'.called m'.system
  unfolding main_move
  main_move-keeps (d ∷ ds) fds w m h = (_, refl, kept.deliver_keeps d ds m.called m.system h)
  main_move-keeps [] (fd ∷ fds) w m h =
      let (ds, s, taken, h') = kept.take_keeps w fd m.called m.system h in
      (record m { system = s; waiting = ds; left = fds }, rw taken, h')
  main_move-keeps [] [] w m h = elim (Bool-cases m.running) [
    | inl e ↦ (
      record m { waiting = []; left = machine.reports w; running = not (machine.ends w) },
      rw e,
      h,
    )
    | inr e ↦ (record m { waiting = []; left = []; stopped = true }, rw e, h)
  ]

  move-keeps :
      (a : Move X W) (m : Moment X D S)
      → P m.waiting m.called m.system
      → (m' : Moment X D S) × (move machine a m ≡ some m') × P m'.waiting m'.called m'.system
  unfolding move
  move-keeps (thread_moves x) m h = elim (Bool-cases m.stopped) [
    | inl e ↦ (m, rw e, h)
    | inr e ↦
        let (s, made, h') = kept.run_keeps x m.waiting m.called m.system h in
        (record m { system = s; called = m.called ++ x ∷ [] }, rw (e, made), h')
  ]
  move-keeps (main_moves w) m h = elim (Bool-cases m.stopped) [
    | inl e ↦ (m, rw e, h)
    | inr e ↦ let (m', made, h') = main_move-keeps m.waiting m.left w m h in (m', simp e made, h')
  ]
  move-keeps signalled m h = (record m { running = false }, refl, h)

  from-keeps :
      (acts : List (Move X W)) (m : Moment X D S)
      → P m.waiting m.called m.system
      → (m' : Moment X D S) × (moves machine acts m ≡ some m') × P m'.waiting m'.called m'.system
  unfolding moves
  from-keeps [] m h = (m, refl, h)
  from-keeps (a ∷ acts) m h =
      let (n, e, h') = move-keeps a m h in
      let (m', e', h'') = from-keeps acts n h' in (m', rw e e', h'')

  -- From the start of the loop.
  pub moves-keeps :
      (acts : List (Move X W)) (s : S)
      → P [] [] s
      → (m : Moment X D S) × (moves machine acts (enter machine s) ≡ some m)
        × P m.waiting m.called m.system
  moves-keeps acts s h = from-keeps acts (enter machine s) h
