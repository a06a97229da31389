-- ===== src/SelfLoop/Defs.antt =====
-- `main` of app1.cpp and its likes, over any manager. The schedule is an argument: when the
-- manager's thread runs, what `epoll_wait` reports, and when a signal comes.
use poc_event_manager.Prelude.{
  Bool, true, false, Option, some, ◌>>=◌, List, [], ◌∷◌, ◌++◌, ◌||◌, not, ℤ, if◌then◌else◌, ◌≡◌,
  arith, ◌==ℤ◌, minus_one,
}
use poc_event_manager.Event.{Event}
use poc_event_manager.EventPoller.Defs.{EventPoller, Objects, construct, add, execute_all}
use poc_event_manager.Manager.Interface.{IManager}

pub data Turn (In : Type 0) : Type 0 where
  thread : In → Turn In  -- the manager's thread calls _runImpl once
  wait : In → List ℤ → Turn In  -- the main loop, with the descriptors that Wait reports
  signal : Turn In  -- SIGINT or SIGTERM

-- What the poller reaches: the manager, and, as an observer of the calls has it, the events that
-- Consume was called with, oldest first.
pub record Store (M : Type 0) : Type 0 where
  pub manager : M
  pub consumed : List Event

pub record Program (M : Type 0) : Type 0 where
  pub manager : M
  pub consumed : List Event  -- as in Store
  pub poller : EventPoller (Unit {0}) (Unit {0})
  pub running : Bool  -- the global flag
  pub stopped : Bool  -- `main` is past managerA->Stop()

-- What the calls of _runImpl take from outside, oldest first: the thread makes no more of them once
-- `main` has stopped it, which it does at the first turn of its loop after a signal.
unfoldable pub rounds : {In : Type 0} → Bool → Bool → List (Turn In) → List In
rounds running stopped [] = []
rounds running stopped (thread i ∷ ts) =
    let rest = rounds running stopped ts in if stopped then rest else i ∷ rest
rounds running stopped (wait i ready ∷ ts) = rounds running (stopped || not running) ts
rounds running stopped (signal ∷ ts) = rounds false stopped ts

module _ {In M : Type 0} (ops : IManager In Event M) where
  -- Both weak pointers lead to the one manager, which `main` keeps alive.
  abbrev pub objects : In → Objects (Unit {0}) (Unit {0}) Event (Store M)
  objects i = record {
    lock_producer = λ p s. true;
    lock_consumer = λ c s. true;
    produce = λ p s. ops.produce i s.manager >>= (λ r. some (r.0, record s { manager = r.1 }));
    consume =
        λ c e s. record { manager = ops.consume e s.manager; consumed = s.consumed ++ e ∷ [] };
  }

  begin : ℤ → M → EventPoller (Unit {0}) (Unit {0}) → Program M
  begin ctl m poller = record {
    manager = ops.pre_run_impl m;
    consumed = [];
    poller = (add ctl (ops.get_sources m) tt tt poller).1;
    running = true;
    stopped = false;
  }

  -- `main` up to its loop, with the manager as its constructor left it and the results of
  -- epoll_create1 and epoll_ctl. Run starts the thread, which calls _preRunImpl. That
  -- PrometheusSimpleServer, the manager's own poller and AddCounter throw nothing is assumed; an
  -- exception there ends the program before its loop.
  unfoldable pub start : ℤ → ℤ → M → Option (Program M)
  unfolding begin
  start created ctl m = construct created >>= (λ poller. some (begin ctl m poller))

  pub manager-start :
      (created ctl : ℤ) (m : M) (p : Program M)
      → start created ctl m ≡ some p
      → (p.manager ≡ ops.pre_run_impl m)
        × (p.consumed ≡ [])
        × (p.running ≡ true)
        × (p.stopped ≡ false)
  unfolding start construct
  manager-start created ctl m p h = ground arith

  pub start_total :
      (created ctl : ℤ) (m : M)
      → (created ==ℤ minus_one) ≡ false
      → (p : Program M) × (start created ctl m ≡ some p)
  unfolding start construct
  start_total created ctl m h = (begin ctl m (record { fd = created; watchers = [] }), rw h)

  wait_turn : In → List ℤ → Program M → Option (Program M)
  wait_turn i ready p =
      if p.running
      then (execute_all (objects i) p.poller ready
            (record { manager = p.manager; consumed = p.consumed })
          >>= (λ s. some (record p { manager = s.manager; consumed = s.consumed })))
      else some (record p { stopped = true })

  unfoldable pub turn : Turn In → Program M → Option (Program M)
  unfolding wait_turn
  turn (thread i) p =
      if p.stopped
      then some p
      else ops.run_impl i p.manager >>= (λ m. some (record p { manager = m }))
  turn (wait i ready) p = if p.stopped then some p else wait_turn i ready p
  turn signal p = some (record p { running = false })

  unfoldable pub run : List (Turn In) → Program M → Option (Program M)
  run [] p = some p
  run (t ∷ ts) p = turn t p >>= run ts
