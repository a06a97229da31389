-- ===== src/App1/Steps.antt =====
-- What each statement of _runImpl and Produce of app1.cpp does to the manager that is left once the
-- calls inside have returned.
use poc_event_manager.Prelude.{
  Bool, true, false, ◌||◌, ◌&&◌, not, some, List, [], ◌∷◌, ◌++◌, ℕ, ℤ, ltb, length, if◌then◌else◌,
  ◌≡◌, refl, some-cancel, >>=-eq-some, Bool-cases, inl, inr, arith, subst,
}
use poc_event_manager.PipedEvent.Defs.{fire, consume}
use poc_event_manager.Event.{Event, event_a}
use poc_event_manager.Counters.{increment_tx, increment_dropped}
use poc_event_manager.App1.{ManagerA, max_queue_size, run_impl, consume_event, produce}
use poc_event_manager.App1.Interleaving.{
  ThreadPc, outside, dropping, at_lock, appending, counting, firing, unlocking, MainPc, resting,
  swapping, resetting, returning, Shared, State, Action, thread_moves, main_moves, main_consumes,
  thread_step, main_step, consume_step, step, Serial, Call, runs, consumes, perform, perform_all,
  thread_begins, main_begins, begins,
}

-- What the call inside has still to do.
abbrev pub finish_thread : ThreadPc → ManagerA → ManagerA
finish_thread dropping m = record m { counters = increment_dropped m.counters }
finish_thread (appending draws) m = record m {
  tx_queue = m.tx_queue ++ event_a draws.1 ∷ [];
  counters = increment_tx m.counters;
  tx_event = fire m.tx_event;
}
finish_thread counting m = record m {
  counters = increment_tx m.counters;
  tx_event = fire m.tx_event;
}
finish_thread firing m = record m { tx_event = fire m.tx_event }
finish_thread _ m = m

abbrev finish_main : MainPc → Serial → Serial
finish_main (resetting es) s = record {
  manager = record (s.manager) { tx_event = consume s.manager.tx_event };
  handed = s.handed ++ es;
}
finish_main (returning es) s = record s { handed = s.handed ++ es }
finish_main _ s = s

-- What is left once the calls inside have returned.
abbrev pub finish : ThreadPc → MainPc → Shared → Serial
finish t m s = finish_main m (record { manager = finish_thread t s.manager; handed = s.handed })

abbrev pub settled : State → Serial
settled s = finish s.thread_pc s.main_pc s.shared

abbrev in_thread : ThreadPc → Bool
in_thread outside = false
in_thread dropping = false
in_thread (at_lock _) = false
in_thread _ = true

abbrev in_main : MainPc → Bool
in_main resting = false
in_main _ = true

abbrev is_short : ThreadPc → ℕ → Bool
is_short (at_lock _) n = not (ltb max_queue_size n)
is_short _ _ = true

-- The mutex is taken by one of them at most, and the list is short where it was found to be short.
pub record Inv (t : ThreadPc) (m : MainPc) (s : Shared) : Type 0 where
  pub holder : s.locked ≡ (in_thread t || in_main m)
  pub exclusive : (in_thread t && in_main m) ≡ false
  pub short : is_short t (length s.manager.tx_queue) ≡ true

pub record IsStep (t : ThreadPc) (m : MainPc) (s : Shared) (cs : List Call) (t' : ThreadPc)
    (m' : MainPc) (s' : Shared) : Type 0 where
  pub effect : finish t' m' s' ≡ perform_all cs (finish t m s)
  pub inv : Inv t' m' s'

-- A list that was found too long stays so for the rest of that step, whatever Produce is at.
drop_effect :
    (m : MainPc) (draws : ℤ × ℤ) (s : Shared)
    → ltb max_queue_size (length s.manager.tx_queue) ≡ true
    → finish dropping m s ≡ perform (runs draws) (finish outside m s)
unfolding perform run_impl
drop_effect resting draws s long = rw long refl
drop_effect swapping draws s long = rw long refl
drop_effect (resetting es) draws s long = rw long refl
drop_effect (returning es) draws s long = rw long refl

test-IsStep :
    (m : MainPc) (draws : ℤ × ℤ) (s : Shared)
    → Inv outside m s
    → IsStep outside m s
        (thread_begins outside draws s)
        (if ltb max_queue_size (length s.manager.tx_queue) then dropping else at_lock draws)
        m
        s
unfolding thread_begins perform_all
test-IsStep m draws s v = elim (Bool-cases (ltb max_queue_size (length s.manager.tx_queue))) [
  | inl long ↦ rw long (record {
    effect = drop_effect m draws s long;
    inv = record { holder = v.holder; exclusive = v.exclusive; short = refl };
  })
  | inr short ↦ rw short (record {
    effect = refl;
    inv = record { holder = v.holder; exclusive = v.exclusive; short = rw short refl };
  })
]

thread_step-IsStep :
    (t : ThreadPc) (m : MainPc) (draws : ℤ × ℤ) (s : Shared) (r : ThreadPc × Shared)
    → Inv t m s
    → thread_step t draws s ≡ some r
    → IsStep t m s (thread_begins t draws s) r.0 m r.1
unfolding thread_step thread_begins perform_all perform run_impl produce
thread_step-IsStep outside m draws s r v e =
    subst (λ (k : ThreadPc × Shared). IsStep outside m s (thread_begins outside draws s) k.0 m k.1)
      (some-cancel e) (test-IsStep m draws s v)
thread_step-IsStep dropping m draws s r v e = ground (arith, v.holder, v.exclusive, v.short, e)
thread_step-IsStep (at_lock d) m draws s r v e = ground (arith, v.holder, v.exclusive, v.short, e)
thread_step-IsStep (appending d) m draws s r v e = ground (arith, v.holder, v.exclusive, v.short, e)
thread_step-IsStep counting m draws s r v e = ground (arith, v.holder, v.exclusive, v.short, e)
thread_step-IsStep firing m draws s r v e = ground (arith, v.holder, v.exclusive, v.short, e)
thread_step-IsStep unlocking m draws s r v e = ground (arith, v.holder, v.exclusive, v.short, e)

main_step-IsStep :
    (t : ThreadPc) (m : MainPc) (s : Shared) (r : MainPc × Shared)
    → Inv t m s
    → main_step m s ≡ some r
    → IsStep t m s (main_begins m) t r.0 r.1
unfolding main_step main_begins perform_all perform produce
main_step-IsStep t resting s r v e = ground (arith, v.holder, v.exclusive, v.short, e)
main_step-IsStep t swapping s r v e = ground (arith, v.holder, v.exclusive, v.short, e)
main_step-IsStep t (resetting es) s r v e = ground (arith, v.holder, v.exclusive, v.short, e)
main_step-IsStep t (returning es) s r v e = ground (arith, v.holder, v.exclusive, v.short, e)

consume_step-IsStep :
    (t : ThreadPc) (m : MainPc) (x : Event) (s s' : Shared)
    → Inv t m s
    → consume_step m x s ≡ some s'
    → IsStep t m s (consumes x ∷ []) t m s'
unfolding consume_step perform_all perform consume_event
consume_step-IsStep t m x s s' v e = ground (arith, v.holder, v.exclusive, v.short, e)

pub step-IsStep :
    (a : Action) (s s' : State)
    → Inv s.thread_pc s.main_pc s.shared
    → step a s ≡ some s'
    → IsStep s.thread_pc s.main_pc s.shared (begins a s) s'.thread_pc s'.main_pc s'.shared
unfolding step begins
step-IsStep (thread_moves draws) s s' v e =
    let (r, made, same) = >>=-eq-some (thread_step s.thread_pc draws s.shared) _ e in
    subst
      (λ (k : State).
        IsStep s.thread_pc s.main_pc s.shared (thread_begins s.thread_pc draws s.shared) k.thread_pc
          k.main_pc k.shared)
      (some-cancel same) (thread_step-IsStep s.thread_pc s.main_pc draws s.shared r v made)
step-IsStep main_moves s s' v e =
    let (r, made, same) = >>=-eq-some (main_step s.main_pc s.shared) _ e in
    subst
      (λ (k : State).
        IsStep s.thread_pc s.main_pc s.shared (main_begins s.main_pc) k.thread_pc k.main_pc
          k.shared)
      (some-cancel same) (main_step-IsStep s.thread_pc s.main_pc s.shared r v made)
step-IsStep (main_consumes x) s s' v e =
    let (r, made, same) = >>=-eq-some (consume_step s.main_pc x s.shared) _ e in
    subst
      (λ (k : State).
        IsStep s.thread_pc s.main_pc s.shared (consumes x ∷ []) k.thread_pc k.main_pc k.shared)
      (some-cancel same) (consume_step-IsStep s.thread_pc s.main_pc x s.shared r v made)
