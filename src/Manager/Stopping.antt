-- ===== src/Manager/Stopping.antt =====
-- The order of the thread's calls, and that Stop ends it. Halting has what is called after it.
use poc_event_manager.Prelude.{
  ℕ, ◌+◌, ◌≤◌, ◌≡◌, ◌≢◌, refl, subst, Bool, true, false, some, some-cancel, List, [], ◌∷◌, arith,
  length, ◌++◌,
}
use poc_event_manager.Manager.Lifecycle.{
  ThreadPc, absent, at_start, at_test, at_call, in_body, finished, MainPc, free, joining,
  terminated, Call, pre_run, run_body, Life, run_manager, stop, join_thread, thread_step, Action,
  runs, stops, joins, moves, main_step, step, run, Reach, start, next,
}

abbrev is_past_start : ThreadPc → Bool
is_past_start at_test = true
is_past_start at_call = true
is_past_start in_body = true
is_past_start _ = false

abbrev is_gone : ThreadPc → Bool
is_gone absent = true
is_gone finished = true
is_gone _ = false

-- No call of _runImpl is the first call.
abbrev pub IsPrepared : List Call → Type 0
IsPrepared [] = Unit {0}
IsPrepared (pre_run ∷ cs) = IsPrepared cs
IsPrepared (run_body ∷ cs) = (cs ≢ []) × IsPrepared cs

pub record Inv (l : Life) : Type 0 where
  pub alive : l.joinable ≡ true → l.thread_pc ≢ absent
  pub gone : l.joinable ≡ false → is_gone l.thread_pc ≡ true
  pub stopping : l.main_pc ≡ joining → (l.running ≡ false) × (l.joinable ≡ true)
  pub prepared : is_past_start l.thread_pc ≡ true → l.calls ≢ []
  pub ordered : IsPrepared l.calls

thread_step-Inv :
    (p : ThreadPc) (l k : Life) → l.thread_pc ≡ p → thread_step p l ≡ some k → Inv l → Inv k
unfolding thread_step
thread_step-Inv absent l k e h v = ground arith
thread_step-Inv at_start l k e h v = ground arith
thread_step-Inv at_test l k e h v = ground arith
thread_step-Inv at_call l k e h v = ground arith
thread_step-Inv in_body l k e h v = ground arith
thread_step-Inv finished l k e h v = ground arith

join-Inv : (p : ThreadPc) (l k : Life) → l.thread_pc ≡ p → join_thread p l ≡ some k → Inv l → Inv k
unfolding join_thread
join-Inv absent l k e h v = cc
join-Inv at_start l k e h v = cc
join-Inv at_test l k e h v = cc
join-Inv at_call l k e h v = cc
join-Inv in_body l k e h v = cc
join-Inv finished l k e h v = ground arith

run_manager-Inv : (l : Life) → l.main_pc ≡ free → Inv l → Inv (run_manager l)
unfolding run_manager
run_manager-Inv l e v = ground arith

stop-Inv : (l : Life) → l.main_pc ≡ free → Inv l → Inv (stop l)
unfolding stop
stop-Inv l e v = ground arith

main_step-Inv :
    (m : MainPc) (a : Action) (l k : Life)
    → l.main_pc ≡ m
    → main_step m a l ≡ some k
    → Inv l
    → Inv k
unfolding main_step
main_step-Inv free runs l k e h v = subst Inv (some-cancel h) (run_manager-Inv l e v)
main_step-Inv free stops l k e h v = subst Inv (some-cancel h) (stop-Inv l e v)
main_step-Inv free joins l k e h v = cc
main_step-Inv free moves l k e h v = cc
main_step-Inv joining joins l k e h v = join-Inv l.thread_pc l k refl h v
main_step-Inv joining runs l k e h v = cc
main_step-Inv joining stops l k e h v = cc
main_step-Inv joining moves l k e h v = cc
main_step-Inv terminated runs l k e h v = cc
main_step-Inv terminated stops l k e h v = cc
main_step-Inv terminated joins l k e h v = cc
main_step-Inv terminated moves l k e h v = cc

pub step-Inv : (a : Action) (l k : Life) → step a l ≡ some k → Inv l → Inv k
unfolding step
step-Inv moves l k h v = thread_step-Inv l.thread_pc l k refl h v
step-Inv runs l k h v = main_step-Inv l.main_pc runs l k refl h v
step-Inv stops l k h v = main_step-Inv l.main_pc stops l k refl h v
step-Inv joins l k h v = main_step-Inv l.main_pc joins l k refl h v

pub Reach-Inv : {l : Life} → Reach l → Inv l
Reach-Inv start = record {
  alive = λ h. cc;
  gone = λ h. refl;
  stopping = λ h. cc;
  prepared = λ h. cc;
  ordered = tt;
}
Reach-Inv (next {l = l} {k = k} a r h) = step-Inv a l k h (Reach-Inv r)

-- Is a call of _runImpl certain, since its test has seen true?
abbrev pub about_to_call : ThreadPc → ℕ
about_to_call at_call = 1
about_to_call _ = 0

abbrev moves_left : ThreadPc → List Action
moves_left absent = []
moves_left at_start = moves ∷ moves ∷ []
moves_left at_test = moves ∷ []
moves_left at_call = moves ∷ moves ∷ moves ∷ []
moves_left in_body = moves ∷ moves ∷ []
moves_left finished = []

-- What the controlling thread sees once `join` has returned.
pub record HasStopped (l : Life) : Type 0 where
  pub returned : l.main_pc ≡ free
  pub ended : l.thread_pc ≡ finished
  pub unjoinable : l.joinable ≡ false

abbrev joined : Life → Life
joined l = record l { thread_pc = finished; main_pc = free; joinable = false }

stop_path :
    (p : ThreadPc) (l : Life)
    → l.thread_pc ≡ p
    → p ≢ absent
    → l.main_pc ≡ joining
    → l.running ≡ false
    → (k : Life) × (run (moves_left p ++ joins ∷ []) l ≡ some k) × HasStopped k
unfolding run step
stop_path absent l e a m r = absurd (a refl)
stop_path at_start l e a m r = (
  record l { thread_pc = finished; main_pc = free; joinable = false; calls = pre_run ∷ l.calls },
  ground arith,
  ground arith,
)
stop_path at_test l e a m r = (joined l, ground arith, ground arith)
stop_path at_call l e a m r = (
  record l { thread_pc = finished; main_pc = free; joinable = false; calls = run_body ∷ l.calls },
  ground arith,
  ground arith,
)
stop_path in_body l e a m r = (joined l, ground arith, ground arith)
stop_path finished l e a m r = (joined l, ground arith, ground arith)

length-moves_left : (p : ThreadPc) → length (moves_left p) ≤ 2 + about_to_call p
length-moves_left absent = omega arith
length-moves_left at_start = omega arith
length-moves_left at_test = omega arith
length-moves_left at_call = omega arith
length-moves_left in_body = omega arith
length-moves_left finished = omega arith

-- Stop returns: in every reachable state in which the controlling thread waits in `join`, two more
-- steps of the manager's thread at most, or three where its test has just seen true, end it, and
-- then `join` returns with the thread finished. The rest of a call of _runImpl counts as one step.
pub stop_returns :
    {l : Life}
    → Reach l
    → l.main_pc ≡ joining
    → (acts : List Action) × (k : Life) × (length acts ≤ 2 + about_to_call l.thread_pc)
      × (run (acts ++ joins ∷ []) l ≡ some k)
      × HasStopped k
stop_returns {l} r m =
    let v = Reach-Inv r in
    let (cleared, started) = v.stopping m in
    let (k, done, stopped) = stop_path l.thread_pc l refl (v.alive started) m cleared in
    (moves_left l.thread_pc, k, length-moves_left l.thread_pc, done, stopped)

-- The thread calls _preRunImpl before any _runImpl.
pub calls-IsPrepared : {l : Life} → Reach l → IsPrepared l.calls
calls-IsPrepared r = (Reach-Inv r).ordered
