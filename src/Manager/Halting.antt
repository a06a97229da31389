-- ===== src/Manager/Halting.antt =====
-- What the thread calls once Stop has cleared `_running`.
use poc_event_manager.Prelude.{
  ℕ, suc, ◌+◌, ◌≤◌, ◌≡◌, refl, subst, false, some, some-cancel, >>=-eq-some, List, [], ◌∷◌, arith,
  ◌∙◌,
}
use poc_event_manager.Manager.Lifecycle.{
  ThreadPc, absent, at_start, at_test, at_call, in_body, finished, MainPc, free, joining,
  terminated, Call, pre_run, run_body, Life, run_manager, stop, join_thread, thread_step, Action,
  runs, stops, joins, moves, main_step, step, run, Reach,
}
use poc_event_manager.Manager.Stopping.{Inv, step-Inv, Reach-Inv, about_to_call}

abbrev pub bodies : List Call → ℕ
bodies [] = 0
bodies (pre_run ∷ cs) = bodies cs
bodies (run_body ∷ cs) = suc (bodies cs)

-- The calls of _runImpl that were made or are certain.
abbrev calls_due : Life → ℕ
calls_due l = bodies l.calls + about_to_call l.thread_pc

record IsHalted (l k : Life) : Type 0 where
  still : k.running ≡ false
  same : calls_due k ≡ calls_due l
  pub grows : bodies l.calls ≤ bodies k.calls

thread_step-IsHalted :
    (p : ThreadPc) (l k : Life)
    → l.thread_pc ≡ p
    → l.running ≡ false
    → thread_step p l ≡ some k
    → IsHalted l k
unfolding thread_step
thread_step-IsHalted absent l k e r h = cc
thread_step-IsHalted at_start l k e r h = ground arith
thread_step-IsHalted at_test l k e r h = ground arith
thread_step-IsHalted at_call l k e r h = ground arith
thread_step-IsHalted in_body l k e r h = ground arith
thread_step-IsHalted finished l k e r h = cc

-- A thread that is gone is not about to call.
run_manager-IsHalted :
    (p : ThreadPc) (l : Life)
    → l.thread_pc ≡ p
    → Inv l
    → l.running ≡ false
    → IsHalted l (run_manager l)
unfolding run_manager
run_manager-IsHalted absent l e v r = ground (arith, v.gone)
run_manager-IsHalted at_start l e v r = ground (arith, v.gone)
run_manager-IsHalted at_test l e v r = ground (arith, v.gone)
run_manager-IsHalted at_call l e v r = ground (arith, v.gone)
run_manager-IsHalted in_body l e v r = ground (arith, v.gone)
run_manager-IsHalted finished l e v r = ground (arith, v.gone)

stop-IsHalted : (l : Life) → IsHalted l (stop l)
unfolding stop
stop-IsHalted l = ground arith

join-IsHalted :
    (p : ThreadPc) (l k : Life) → l.running ≡ false → join_thread p l ≡ some k → IsHalted l k
unfolding join_thread
join-IsHalted absent l k r h = cc
join-IsHalted at_start l k r h = cc
join-IsHalted at_test l k r h = cc
join-IsHalted at_call l k r h = cc
join-IsHalted in_body l k r h = cc
join-IsHalted finished l k r h = ground arith

main_step-IsHalted :
    (m : MainPc) (a : Action) (l k : Life)
    → Inv l
    → l.running ≡ false
    → main_step m a l ≡ some k
    → IsHalted l k
unfolding main_step
main_step-IsHalted free runs l k v r h =
    subst (IsHalted l) (some-cancel h) (run_manager-IsHalted l.thread_pc l refl v r)
main_step-IsHalted free stops l k v r h = subst (IsHalted l) (some-cancel h) (stop-IsHalted l)
main_step-IsHalted free joins l k v r h = cc
main_step-IsHalted free moves l k v r h = cc
main_step-IsHalted joining joins l k v r h = join-IsHalted l.thread_pc l k r h
main_step-IsHalted joining runs l k v r h = cc
main_step-IsHalted joining stops l k v r h = cc
main_step-IsHalted joining moves l k v r h = cc
main_step-IsHalted terminated runs l k v r h = cc
main_step-IsHalted terminated stops l k v r h = cc
main_step-IsHalted terminated joins l k v r h = cc
main_step-IsHalted terminated moves l k v r h = cc

step-IsHalted :
    (a : Action) (l k : Life) → Inv l → l.running ≡ false → step a l ≡ some k → IsHalted l k
unfolding step
step-IsHalted moves l k v r h = thread_step-IsHalted l.thread_pc l k refl r h
step-IsHalted runs l k v r h = main_step-IsHalted l.main_pc runs l k v r h
step-IsHalted stops l k v r h = main_step-IsHalted l.main_pc stops l k v r h
step-IsHalted joins l k v r h = main_step-IsHalted l.main_pc joins l k v r h

run-IsHalted :
    (acts : List Action) (l k : Life)
    → Inv l
    → l.running ≡ false
    → run acts l ≡ some k
    → IsHalted l k
unfolding run
run-IsHalted [] l k v r h = ground arith
run-IsHalted (a ∷ rest) l k v r h =
    let (j, first, later) = >>=-eq-some (step a l) (run rest) h in
    let now = step-IsHalted a l j v r first in
    let after = run-IsHalted rest j k (step-Inv a l j first v) now.still later in
    record {
      still = after.still;
      same = after.same ∙ now.same;
      grows = omega (arith, now.grows, after.grows);
    }

-- In every reachable state in which Stop has cleared the flag: whatever follows, further calls of Run
-- included, the flag stays cleared, the calls of _runImpl that were made or are certain stay as many
-- as they are, and it is called at most once more, and only where the thread's test had seen true
-- before.
pub run-after_stop :
    {l : Life} (acts : List Action) (k : Life)
    → Reach l
    → l.running ≡ false
    → run acts l ≡ some k
    → (k.running ≡ false)
      × (bodies k.calls + about_to_call k.thread_pc ≡ bodies l.calls + about_to_call l.thread_pc)
      × (bodies l.calls ≤ bodies k.calls)
      × (bodies k.calls ≤ bodies l.calls + about_to_call l.thread_pc)
run-after_stop {l} acts k r off h =
    let halted = run-IsHalted acts l k (Reach-Inv r) off h in
    (halted.still, halted.same, halted.grows, omega (arith, halted.same))
