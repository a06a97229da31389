-- ===== src/Loop/Calls.antt =====
-- The loop, where threads and signals come between any two calls that it makes.
use poc_event_manager.Prelude.{
  Bool, true, false, Option, some, ◌>>=◌, List, [], ◌∷◌, ◌++◌, not, ℤ, if◌then◌else◌,
}
use poc_event_manager.Loop.Defs.{Machine}

pub data Move (X W : Type 0) : Type 0 where
  thread_moves : X → Move X W  -- a call of _runImpl
  main_moves : W → Move X W  -- the loop makes its next call; what the wait gives, if it is that
  signalled : Move X W

pub record Moment (X D S : Type 0) : Type 0 where
  pub system : S
  pub waiting : List D  -- what Produce returned, less what was handed over
  pub left : List ℤ  -- the reports that were not yet looked at
  pub running : Bool
  pub stopped : Bool
  pub called : List X  -- the calls of _runImpl, oldest first

module _ {X W D S : Type 0} (machine : Machine X W D S) where
  open machine use {run_impl, reports, ends, take, deliver}

  -- By the events that wait and the reports that are left.
  unfoldable pub main_move : List D → List ℤ → W → Moment X D S → Option (Moment X D S)
  main_move (d ∷ ds) _ w s = some (record s { system = deliver d s.system; waiting = ds })
  main_move [] (fd ∷ fds) w s =
      take w fd s.system >>= (λ r. some (record s { system = r.1; waiting = r.0; left = fds }))
  main_move [] [] w s = some (
      if s.running
      then record s { left = reports w; running = not (ends w) }
      else record s { stopped = true })

  unfoldable pub move : Move X W → Moment X D S → Option (Moment X D S)
  unfolding main_move
  move (thread_moves x) s =
      if s.stopped
      then some s
      else run_impl x s.system
        >>= (λ k. some (record s { system = k; called = s.called ++ x ∷ [] }))
  move (main_moves w) s = if s.stopped then some s else main_move s.waiting s.left w s
  move signalled s = some (record s { running = false })

  unfoldable pub moves : List (Move X W) → Moment X D S → Option (Moment X D S)
  moves [] s = some s
  moves (a ∷ acts) s = move a s >>= moves acts

  abbrev pub enter : S → Moment X D S
  enter s = record {
    system = s;
    waiting = [];
    left = [];
    running = true;
    stopped = false;
    called = [];
  }
