-- ===== src/Manager/Lifecycle.antt =====
-- Run, Stop and the thread that Run starts, as steps of the controlling thread and of that thread.
use poc_event_manager.Prelude.{
  ◌≡◌, Bool, true, false, Option, none, some, ◌>>=◌, List, [], ◌∷◌, if◌then◌else◌,
}

pub data ThreadPc : Type 0 where
  absent : ThreadPc  -- never started
  at_start : ThreadPc
  at_test : ThreadPc  -- about to load `_running`, in the loop's test
  at_call : ThreadPc  -- the test has seen true; about to call _runImpl
  in_body : ThreadPc  -- inside _runImpl
  finished : ThreadPc

pub data MainPc : Type 0 where
  free : MainPc
  joining : MainPc  -- inside Stop, in `_thread.join()`
  terminated : MainPc  -- std::terminate, by assigning to a joinable thread

pub data Call : Type 0 where
  pre_run run_body : Call

pub record Life : Type 0 where
  pub running : Bool  -- _running
  pub joinable : Bool  -- _thread.joinable()
  pub thread_pc : ThreadPc
  pub main_pc : MainPc
  pub calls : List Call  -- of _preRunImpl and _runImpl, newest first

abbrev pub fresh : Life
fresh = record { running = true; joinable = false; thread_pc = absent; main_pc = free; calls = [] }

unfoldable pub run_manager : Life → Life
run_manager l =
    if l.joinable
    then record l { main_pc = terminated }
    else record l { thread_pc = at_start; joinable = true }

-- Stop up to the call of `join`.
unfoldable pub stop : Life → Life
stop l =
    if l.joinable
    then record l { running = false; main_pc = joining }
    else record l { running = false }

-- What `join` waits for.
unfoldable pub join_thread : ThreadPc → Life → Option Life
join_thread finished l = some (record l { main_pc = free; joinable = false })
join_thread _ l = none

-- The lambda that the thread runs. Naming the thread is left out.
unfoldable pub thread_step : ThreadPc → Life → Option Life
thread_step absent l = none
thread_step at_start l = some (record l { thread_pc = at_test; calls = pre_run ∷ l.calls })
thread_step at_test l = some (record l { thread_pc = if l.running then at_call else finished })
thread_step at_call l = some (record l { thread_pc = in_body; calls = run_body ∷ l.calls })
thread_step in_body l = some (record l { thread_pc = at_test })
thread_step finished l = none

pub data Action : Type 0 where
  runs stops joins moves : Action

-- `none`: whoever should move is blocked, or is not there to move.
unfoldable pub main_step : MainPc → Action → Life → Option Life
unfolding run_manager stop join_thread
main_step free runs l = some (run_manager l)
main_step free stops l = some (stop l)
main_step joining joins l = join_thread l.thread_pc l
main_step _ _ l = none

unfoldable pub step : Action → Life → Option Life
unfolding main_step thread_step
step moves l = thread_step l.thread_pc l
step a l = main_step l.main_pc a l

unfoldable pub run : List Action → Life → Option Life
run [] l = some l
run (a ∷ rest) l = step a l >>= run rest

pub data Reach : Life → Type 0 where
  start : Reach fresh
  next : {l k : Life} (a : Action) → Reach l → step a l ≡ some k → Reach k
