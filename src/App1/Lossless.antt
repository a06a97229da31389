-- ===== src/App1/Lossless.antt =====
-- The list of app1.cpp under every interleaving of _runImpl and Produce.
use poc_event_manager.Prelude.{
  ◌+◌, ◌≤◌, ◌≡◌, refl, some, List, [], ◌∷◌, pos, length, length-append, arith, subst, sym,
}
use poc_event_manager.Event.{event_a}
use poc_event_manager.App1.{ManagerA, max_queue_size, run_impl, consume_event, produce}
use poc_event_manager.App1.Interleaving.{
  ThreadPc, outside, dropping, at_lock, appending, counting, firing, unlocking, MainPc, resting,
  swapping, resetting, returning, Shared, State, Action, run, Serial, Call, runs, produces,
  consumes, perform, perform_all, calls,
}
use poc_event_manager.App1.Steps.{finish, finish_thread, settled}
use poc_event_manager.App1.Atomicity.{idle, run-perform_all}

record IsLossless (s : Serial) : Type 0 where
  bounded : length s.manager.tx_queue ≤ max_queue_size + 1
  kept : s.manager.counters.tx ≡ length s.handed + length s.manager.tx_queue

perform-IsLossless : (c : Call) (s : Serial) → IsLossless s → IsLossless (perform c s)
unfolding perform run_impl consume_event produce
perform-IsLossless (runs draws) s v =
    ground (arith, v.bounded, v.kept, length-append s.manager.tx_queue (event_a draws.1 ∷ []))
perform-IsLossless produces s v = record {
  bounded = omega arith;
  kept = omega (arith, v.kept, length-append s.handed s.manager.tx_queue);
}
perform-IsLossless (consumes e) s v = record { bounded = v.bounded; kept = v.kept }

perform_all-IsLossless :
    (cs : List Call) (s : Serial) → IsLossless s → IsLossless (perform_all cs s)
unfolding perform_all
perform_all-IsLossless [] s v = v
perform_all-IsLossless (c ∷ cs) s v =
    perform_all-IsLossless cs (perform c s) (perform-IsLossless c s v)

-- What is inside can only lengthen the list.
length-finish_thread :
    (t : ThreadPc) (m : ManagerA) → length m.tx_queue ≤ length (finish_thread t m).tx_queue
length-finish_thread (appending draws) m =
    omega (arith, length-append m.tx_queue (event_a draws.1 ∷ []))
length-finish_thread outside m = omega arith
length-finish_thread dropping m = omega arith
length-finish_thread (at_lock _) m = omega arith
length-finish_thread counting m = omega arith
length-finish_thread firing m = omega arith
length-finish_thread unlocking m = omega arith

length-finish :
    (t : ThreadPc) (m : MainPc) (s : Shared)
    → length s.manager.tx_queue ≤ length (finish t m s).manager.tx_queue
length-finish t resting s = length-finish_thread t s.manager
length-finish t swapping s = length-finish_thread t s.manager
length-finish t (resetting es) s = length-finish_thread t s.manager
length-finish t (returning es) s = length-finish_thread t s.manager

-- From a new manager, however the statements of _runImpl and of Produce interleave: the list never
-- holds more than one event over the limit; and once the calls inside have done the rest of their
-- work, as many events were counted as sent as Produce has returned and as still wait.
pub run-bounded :
    (m : ManagerA) (acts : List Action) (t : State)
    → m.tx_queue ≡ []
    → m.counters.tx ≡ 0
    → run acts (idle m) ≡ some t
    → (length t.shared.manager.tx_queue ≤ max_queue_size + 1)
      × ((settled t).manager.counters.tx
          ≡ length (settled t).handed + length (settled t).manager.tx_queue)
run-bounded m acts t empty none_sent e =
    let v : IsLossless (settled t) =
      subst IsLossless (sym (run-perform_all m acts t (pos 0, pos 0) e).0) (
        perform_all-IsLossless (calls acts (idle m)) (record { manager = m; handed = [] })
          (record { bounded = rw empty (omega arith); kept = rw (empty, none_sent) refl })) in
    (omega (arith, v.bounded, length-finish t.thread_pc t.main_pc t.shared), v.kept)
