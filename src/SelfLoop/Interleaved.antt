-- ===== src/SelfLoop/Interleaved.antt =====
-- The main loop of app1.cpp and its likes, call by call: the manager's thread may run, and a signal
-- may come, between any two calls that the loop makes.
use poc_event_manager.Prelude.{
  Bool, true, false, Option, none, some, ◌>>=◌, List, [], ◌∷◌, ◌++◌, not, ℤ, if◌then◌else◌, lookup,
  int_eq, ◌≡◌,
}
use poc_event_manager.Event.{Event}
use poc_event_manager.EventPoller.Defs.{EventPoller}
use poc_event_manager.Manager.Interface.{IManager, consume1}
use poc_event_manager.SelfLoop.Defs.{Turn, thread, wait, signal, Program, start}

pub data Move (In : Type 0) : Type 0 where
  thread_moves : In → Move In  -- the manager's thread calls _runImpl once
  main_moves : In → List ℤ → Move In  -- the loop makes its next call; what Wait reports, if it is that
  signalled : Move In

-- `main` in its loop.
pub record Moment (In M : Type 0) : Type 0 where
  pub manager : M
  pub consumed : List Event  -- as in Program
  pub waiting : List Event  -- in Execute: what Produce returned, less what was consumed
  pub reports : List ℤ  -- the descriptors that Wait reported and that were not yet executed
  pub poller : EventPoller (Unit {0}) (Unit {0})
  pub running : Bool
  pub stopped : Bool
  pub called : List In  -- what the calls of _runImpl took from outside, oldest first

module _ {In M : Type 0} (ops : IManager In Event M) where
  -- Execute of a descriptor up to its call of Produce: both weak pointers lead to the manager.
  unfoldable pub begin_execute : In → ℤ → Moment In M → Option (Moment In M)
  begin_execute i fd s = elim (lookup fd s.poller.watchers) [
    | none ↦ some s
    | some _ ↦ ops.produce i s.manager >>= (λ r. some (record s { manager = r.1; waiting = r.0 }))
  ]

  -- By the events that wait and the descriptors that were reported.
  unfoldable pub main_move : List Event → List ℤ → In → List ℤ → Moment In M → Option (Moment In M)
  unfolding begin_execute
  main_move (e ∷ es) _ i ready s = some (record s {
    manager = ops.consume e s.manager;
    consumed = s.consumed ++ e ∷ [];
    waiting = es;
  })
  main_move [] (fd ∷ fds) i ready s = begin_execute i fd (record s { reports = fds })
  main_move [] [] i ready s =
      some (if s.running then record s { reports = ready } else record s { stopped = true })

  unfoldable pub move : Move In → Moment In M → Option (Moment In M)
  unfolding main_move
  move (thread_moves i) s =
      if s.stopped
      then some s
      else ops.run_impl i s.manager
        >>= (λ m. some (record s { manager = m; called = s.called ++ i ∷ [] }))
  move (main_moves i ready) s =
      if s.stopped then some s else main_move s.waiting s.reports i ready s
  move signalled s = some (record s { running = false })

  unfoldable pub moves : List (Move In) → Moment In M → Option (Moment In M)
  moves [] s = some s
  moves (a ∷ acts) s = move a s >>= moves acts

  abbrev pub enter : Program M → Moment In M
  enter p = record {
    manager = p.manager;
    consumed = p.consumed;
    waiting = [];
    reports = [];
    poller = p.poller;
    running = p.running;
    stopped = p.stopped;
    called = [];
  }

  -- From what the constructor of the manager gave, and the results of epoll_create1 and epoll_ctl.
  unfoldable pub main_of : Option M → ℤ → ℤ → List (Move In) → Option (Moment In M)
  main_of made created ctl acts =
      made >>= (λ m. start ops created ctl m >>= (λ p. moves acts (enter p)))

  -- The program once the events that wait were consumed. A signal counts where the loop tests the flag.
  abbrev pub settled : Moment In M → Program M
  settled s = record {
    manager = consume1 ops s.waiting s.manager;
    consumed = s.consumed ++ s.waiting;
    poller = s.poller;
    running = not s.stopped;
    stopped = s.stopped;
  }

  -- The whole turns that a move stands for.
  unfoldable pub main_turns : List Event → List ℤ → Bool → In → List (Turn In)
  main_turns (e ∷ es) _ running i = []
  main_turns [] (fd ∷ fds) running i = wait i (fd ∷ []) ∷ []
  main_turns [] [] running i = if running then [] else signal ∷ wait i [] ∷ []

  unfoldable pub turns : Move In → Moment In M → List (Turn In)
  unfolding main_turns
  turns (thread_moves i) s = thread i ∷ []
  turns (main_moves i ready) s =
      if s.stopped then [] else main_turns s.waiting s.reports s.running i
  turns signalled s = []

  -- Consume and _runImpl change what the other does not read.
  abbrev pub Commutes : Type 0
  Commutes =
      (i : In) (e : Event) (m : M)
      → ops.run_impl i (ops.consume e m) ≡ (ops.run_impl i m >>= (λ k. some (ops.consume e k)))
