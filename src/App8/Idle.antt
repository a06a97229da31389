-- ===== src/App8/Idle.antt =====
-- The second queue of app8.cpp is never used.
use poc_event_manager.Prelude.{
  ◌≡◌, refl, Bool, true, false, some, >>=-eq-some, some-cancel, List, [], ◌∷◌, ◌++◌, append_assoc,
  append-nil, ℤ, arith, subst, ap, sym, ◌∙◌,
}
use poc_event_manager.PipedEvent.Defs.{PipedEvent}
use poc_event_manager.Event.{Event, event_a}
use poc_event_manager.App8.Defs.{ManagerA, consume_event}
use poc_event_manager.App8.Interleaving.{
  ThreadPc, outside, at_second, appending_first, appending_second, dropping, counting, firing,
  MainPc, resting, testing_second, swapping_second, at_first, testing_first, swapping_first,
  resetting, Shared, State, Action, thread_moves, main_moves, main_consumes, thread_step, main_step,
  consume_step, step, run, fresh,
}

-- The thread has txMutex1.
abbrev holds_first : ThreadPc → Bool
holds_first (appending_first _) = true
holds_first ThreadPc.unlocking_first = true
holds_first _ = false

-- The thread has found txMutex1 locked.
abbrev has_failed : ThreadPc → Bool
has_failed (at_second _) = true
has_failed _ = false

-- The thread has txMutex2.
abbrev pub thread_has_second : ThreadPc → Bool
thread_has_second (appending_second _) = true
thread_has_second ThreadPc.unlocking_second = true
thread_has_second _ = false

-- Produce has found the second queue nonempty.
abbrev pub takes_second : MainPc → Bool
takes_second swapping_second = true
takes_second (MainPc.unlocking_second _) = true
takes_second _ = false

-- Produce is past txMutex2.
abbrev past_second : MainPc → Bool
past_second resting = false
past_second (resetting _) = false
past_second _ = true

record IsIdle (t : ThreadPc) (p : MainPc) (m : ManagerA) : Type 0 where
  unused : m.tx_queue2 ≡ []
  thread_off : thread_has_second t ≡ false
  main_off : takes_second p ≡ false
  second_kept : past_second p ≡ true → m.locked2 ≡ true
  first_held : m.locked1 ≡ true → holds_first t ≡ false → m.locked2 ≡ true
  failed : has_failed t ≡ true → m.locked2 ≡ true

thread_step-IsIdle :
    (t : ThreadPc) (p : MainPc) (x : ℤ) (m : ManagerA) (s : Shared)
    → s.manager ≡ m
    → IsIdle t p m
    → IsIdle (thread_step t x m s).0 p (thread_step t x m s).1.manager
unfolding thread_step
thread_step-IsIdle outside p x m s e i = ground arith
thread_step-IsIdle (at_second y) p x m s e i = ground arith
thread_step-IsIdle (appending_first y) p x m s e i = ground arith
thread_step-IsIdle (appending_second y) p x m s e i = ground arith
thread_step-IsIdle ThreadPc.unlocking_first p x m s e i = ground arith
thread_step-IsIdle ThreadPc.unlocking_second p x m s e i = ground arith
thread_step-IsIdle dropping p x m s e i = ground arith
thread_step-IsIdle counting p x m s e i = ground arith
thread_step-IsIdle firing p x m s e i = ground arith

main_step-IsIdle :
    (t : ThreadPc) (p : MainPc) (m : ManagerA) (s : Shared)
    → s.manager ≡ m
    → IsIdle t p m
    → IsIdle t (main_step p m s).0 (main_step p m s).1.manager
unfolding main_step
main_step-IsIdle t resting m s e i = ground arith
main_step-IsIdle t testing_second m s e i = ground arith
main_step-IsIdle t swapping_second m s e i = ground arith
main_step-IsIdle t at_first m s e i = ground arith
main_step-IsIdle t testing_first m s e i = ground arith
main_step-IsIdle t swapping_first m s e i = ground arith
main_step-IsIdle t (MainPc.unlocking_second es) m s e i = ground arith
main_step-IsIdle t (MainPc.unlocking_first es) m s e i = ground arith
main_step-IsIdle t (resetting es) m s e i = ground arith

-- What Produce is about to return.
abbrev pub held : MainPc → List Event
held (MainPc.unlocking_second es) = es
held (MainPc.unlocking_first es) = es
held (resetting es) = es
held _ = []

abbrev IsOrdered : MainPc → Shared → Type 0
IsOrdered p s = s.accepted ≡ s.handed ++ (held p ++ s.manager.tx_queue1)

-- The event goes to the end.
append-IsOrdered :
    (hs es q : List Event) (e : Event) {l : List Event}
    → l ≡ hs ++ (es ++ q)
    → l ++ e ∷ [] ≡ hs ++ (es ++ (q ++ e ∷ []))
append-IsOrdered hs es q e h =
    ap (λ l. l ++ e ∷ []) h
    ∙ append_assoc hs (es ++ q) (e ∷ [])
    ∙ ap (◌++◌ hs) (append_assoc es q (e ∷ []))

thread_step-IsOrdered :
    (t : ThreadPc) (p : MainPc) (x : ℤ) (m : ManagerA) (s : Shared)
    → s.manager ≡ m
    → IsIdle t p m
    → IsOrdered p s
    → IsOrdered p (thread_step t x m s).1
unfolding thread_step
thread_step-IsOrdered outside p x m s e i o = ground arith
thread_step-IsOrdered (at_second y) p x m s e i o = ground arith
thread_step-IsOrdered (appending_first y) p x m s e i o =
    append-IsOrdered s.handed (held p) m.tx_queue1 (event_a y)
      (subst (λ (k : ManagerA). s.accepted ≡ s.handed ++ (held p ++ k.tx_queue1)) e o)
thread_step-IsOrdered (appending_second y) p x m s e i o = absurd (cc i.thread_off)
thread_step-IsOrdered ThreadPc.unlocking_first p x m s e i o = ground arith
thread_step-IsOrdered ThreadPc.unlocking_second p x m s e i o = ground arith
thread_step-IsOrdered dropping p x m s e i o = ground arith
thread_step-IsOrdered counting p x m s e i o = ground arith
thread_step-IsOrdered firing p x m s e i o = ground arith

main_step-IsOrdered :
    (t : ThreadPc) (p : MainPc) (m : ManagerA) (s : Shared)
    → s.manager ≡ m
    → IsIdle t p m
    → IsOrdered p s
    → IsOrdered (main_step p m s).0 (main_step p m s).1
unfolding main_step
main_step-IsOrdered t resting m s e i o = ground arith
main_step-IsOrdered t testing_second m s e i o = ground arith
main_step-IsOrdered t swapping_second m s e i o = absurd (cc i.main_off)
main_step-IsOrdered t at_first m s e i o = ground arith
main_step-IsOrdered t testing_first m s e i o = ground arith
main_step-IsOrdered t swapping_first m s e i o =
    o
    ∙ ap (λ (k : ManagerA). s.handed ++ k.tx_queue1) e
    ∙ ap (◌++◌ s.handed) (sym (append-nil m.tx_queue1))
main_step-IsOrdered t (MainPc.unlocking_second es) m s e i o = absurd (cc i.main_off)
main_step-IsOrdered t (MainPc.unlocking_first es) m s e i o = ground arith
main_step-IsOrdered t (resetting es) m s e i o =
    o
    ∙ sym (append_assoc s.handed es s.manager.tx_queue1)
    ∙ ap (λ (k : ManagerA). (s.handed ++ es) ++ k.tx_queue1) e

record Inv (s : State) : Type 0 where
  idle : IsIdle s.thread_pc s.main_pc s.shared.manager
  ordered : IsOrdered s.main_pc s.shared

-- Consume touches a counter only.
consume_step-Inv :
    (p : MainPc) (e : Event) (s : State) {r : Shared}
    → s.main_pc ≡ p
    → consume_step p e s.shared ≡ some r
    → Inv s
    → Inv (record s { shared = r })
unfolding consume_step consume_event
consume_step-Inv resting e s h k v = ground arith
consume_step-Inv testing_second e s h k v = cc
consume_step-Inv swapping_second e s h k v = cc
consume_step-Inv at_first e s h k v = cc
consume_step-Inv testing_first e s h k v = cc
consume_step-Inv swapping_first e s h k v = cc
consume_step-Inv (MainPc.unlocking_second es) e s h k v = cc
consume_step-Inv (MainPc.unlocking_first es) e s h k v = cc
consume_step-Inv (resetting es) e s h k v = cc

step-Inv : (a : Action) (s t : State) → step a s ≡ some t → Inv s → Inv t
unfolding step
step-Inv (thread_moves x) s t h v = subst Inv (some-cancel h) (record {
  idle = thread_step-IsIdle s.thread_pc s.main_pc x s.shared.manager s.shared refl v.idle;
  ordered =
      thread_step-IsOrdered s.thread_pc s.main_pc x s.shared.manager s.shared refl v.idle v.ordered;
})
step-Inv main_moves s t h v = subst Inv (some-cancel h) (record {
  idle = main_step-IsIdle s.thread_pc s.main_pc s.shared.manager s.shared refl v.idle;
  ordered =
      main_step-IsOrdered s.thread_pc s.main_pc s.shared.manager s.shared refl v.idle v.ordered;
})
step-Inv (main_consumes e) s t h v =
    let (r, k, l) =
      >>=-eq-some (consume_step s.main_pc e s.shared) (λ r. some (record s { shared = r })) h in
    subst Inv (some-cancel l) (consume_step-Inv s.main_pc e s refl k v)

run-Inv : (acts : List Action) (s t : State) → run acts s ≡ some t → Inv s → Inv t
unfolding run
run-Inv [] s t h v = subst Inv (some-cancel h) v
run-Inv (a ∷ acts) s t h v =
    let (u, first, later) = >>=-eq-some (step a s) (run acts) h in
    run-Inv acts u t later (step-Inv a s u first v)

fresh-Inv : (e : PipedEvent) → Inv (fresh e)
fresh-Inv e = record {
  idle = record {
    unused = refl;
    thread_off = refl;
    main_off = refl;
    second_kept = λ h. cc h;
    first_held = λ h k. cc h;
    failed = λ h. cc h;
  };
  ordered = refl;
}

-- Under every interleaving of the statements of _runImpl and Produce, from a new manager and where
-- `try_lock` fails only on a locked mutex, the second queue of app8.cpp stays empty: no call of
-- _runImpl ever gets the second mutex, and Produce never takes the second queue. Hence the order is
-- kept: what was put into the queues is what Produce returned, what it is about to return, and what
-- is in the first queue, in this order.
pub run-second_unused :
    (e : PipedEvent) (acts : List Action) (s : State)
    → run acts (fresh e) ≡ some s
    → (s.shared.manager.tx_queue2 ≡ [])
      × (thread_has_second s.thread_pc ≡ false)
      × (takes_second s.main_pc ≡ false)
      × (s.shared.accepted ≡ s.shared.handed ++ (held s.main_pc ++ s.shared.manager.tx_queue1))
run-second_unused e acts s h =
    let v = run-Inv acts (fresh e) s h (fresh-Inv e) in
    (v.idle.unused, v.idle.thread_off, v.idle.main_off, v.ordered)
