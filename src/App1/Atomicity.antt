-- ===== src/App1/Atomicity.antt =====
-- _runImpl and Produce of app1.cpp take effect as whole calls, although the length of the list is
-- tested before the mutex is taken.
use poc_event_manager.Prelude.{
  true, false, some, List, [], ◌∷◌, ◌++◌, ℤ, ◌≡◌, ◌⊎◌, refl, sym, ap, ◌∙◌, some-cancel, >>=-eq-some,
  inl, inr, subst,
}
use poc_event_manager.App1.{ManagerA}
use poc_event_manager.App1.Interleaving.{
  ThreadPc, outside, dropping, at_lock, appending, counting, firing, unlocking, MainPc, resting,
  swapping, resetting, returning, Shared, State, Action, thread_moves, main_moves, thread_step,
  main_step, step, run, Serial, Call, perform, perform_all, begins, calls,
}
use poc_event_manager.App1.Steps.{settled, Inv, step-IsStep}

perform_all-append :
    (cs ds : List Call) (s : Serial) → perform_all (cs ++ ds) s ≡ perform_all ds (perform_all cs s)
unfolding perform_all
perform_all-append [] ds s = refl
perform_all-append (c ∷ cs) ds s = perform_all-append cs ds (perform c s)

run-IsStep :
    (acts : List Action) (s t : State)
    → Inv s.thread_pc s.main_pc s.shared
    → run acts s ≡ some t
    → (settled t ≡ perform_all (calls acts s) (settled s)) × Inv t.thread_pc t.main_pc t.shared
unfolding run calls perform_all
run-IsStep [] s t v e = (
  ap settled (sym (some-cancel e)),
  subst (λ (k : State). Inv k.thread_pc k.main_pc k.shared) (some-cancel e) v,
)
run-IsStep (a ∷ acts) s t v e =
    let (u, made, rest) = >>=-eq-some (step a s) _ e in
    let x = step-IsStep a s u v made in
    let (same, w) = run-IsStep acts u t x.inv rest in
    (
      rw made (
          same
          ∙ ap (perform_all (calls acts u)) x.effect
          ∙ sym (perform_all-append (begins a s) (calls acts u) (settled s))),
      w,
    )

-- A manager that nobody calls.
abbrev pub idle : ManagerA → State
idle m = record {
  thread_pc = outside;
  main_pc = resting;
  shared = record { manager = m; locked = false; handed = [] };
}

-- One of the two threads can move.
part_total :
    (t : ThreadPc) (m : MainPc) (s : Shared) (draws : ℤ × ℤ)
    → Inv t m s
    → ((r : ThreadPc × Shared) × (thread_step t draws s ≡ some r))
      ⊎ ((r : MainPc × Shared) × (main_step m s ≡ some r))
unfolding thread_step main_step
part_total outside m s draws v = inl (_, refl)
part_total dropping m s draws v = inl (_, refl)
part_total (at_lock d) resting s draws v =
    inl ((appending d, record s { locked = true }), rw v.holder refl)
part_total (at_lock d) swapping s draws v = inr (_, refl)
part_total (at_lock d) (resetting es) s draws v = inr (_, refl)
part_total (at_lock d) (returning es) s draws v = inr (_, refl)
part_total (appending d) m s draws v = inl (_, refl)
part_total counting m s draws v = inl (_, refl)
part_total firing m s draws v = inl (_, refl)
part_total unlocking m s draws v = inl (_, refl)

move_total :
    (s : State) (draws : ℤ × ℤ)
    → Inv s.thread_pc s.main_pc s.shared
    → ((u : State) × (step (thread_moves draws) s ≡ some u))
      ⊎ ((u : State) × (step main_moves s ≡ some u))
unfolding step
move_total s draws v = elim (part_total s.thread_pc s.main_pc s.shared draws v) [
  | inl (r, e) ↦ inl (record s { thread_pc = r.0; shared = r.1 }, rw e refl)
  | inr (r, e) ↦ inr (record s { main_pc = r.0; shared = r.1 }, rw e refl)
]

-- However the statements of _runImpl and of Produce interleave, the manager is, once the calls inside
-- have done the rest of their work, what whole calls leave that are made one after the other: each
-- _runImpl where it found the list too long or where it took the mutex, each Produce where it took
-- the list; and the events that Produce returned are the same. And the threads never block each
-- other: one of them can move.
pub run-perform_all :
    (m : ManagerA) (acts : List Action) (t : State) (draws : ℤ × ℤ)
    → run acts (idle m) ≡ some t
    → (settled t ≡ perform_all (calls acts (idle m)) (record { manager = m; handed = [] }))
      × (((u : State) × (step (thread_moves draws) t ≡ some u))
          ⊎ ((u : State) × (step main_moves t ≡ some u)))
run-perform_all m acts t draws e =
    let (same, v) =
      run-IsStep acts (idle m) t (record { holder = refl; exclusive = refl; short = refl }) e in
    (same, move_total t draws v)
