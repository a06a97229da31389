-- ===== src/Handoff/Defs.antt =====
-- _runImpl and Produce of app5.cpp to app12.cpp as the steps of two threads. The queue is any queue
-- whose operations are atomic: push at the back, pop at the front. Where the code takes the whole
-- queue by one swap (app7.cpp), the main thread pops until it finds the queue empty with no step of
-- the other thread in between. The pipe is counted in bytes; `epoll_wait` wakes while it is
-- readable, and `read` blocks while it is empty. A wait that times out reports nothing and is made
-- again, which is no step here. Both descriptors are open, and there is room to push.
use poc_event_manager.Prelude.{
  ℕ, suc, ◌-◌, ◌≡◌, Bool, true, false, Option, none, some, List, [], ◌∷◌, ◌++◌, ltb, if◌then◌else◌,
  ◌>>=◌, >>=-eq-some, subst, some-cancel,
}

-- What `Produce` does first: txEvent.Consume() (app10, app11, app12), or empty the queue (app5,
-- app6, app7).
pub data Order : Type 0 where
  signal_first drain_first : Order

pub data ProducerPc : Type 0 where
  idle : ProducerPc
  pushed : ProducerPc  -- the event is in the queue; Fire is about to load `_fired`
  cleared : ProducerPc  -- Fire has seen false and is about to store true
  stored : ProducerPc  -- Fire is about to write its byte

pub data ConsumerPc : Type 0 where
  waiting : ConsumerPc  -- in epoll_wait
  testing : ConsumerPc  -- Consume is about to load `_fired`
  reading : ConsumerPc  -- Consume has seen true and is about to read
  resetting : ConsumerPc  -- Consume is about to store false
  draining : ConsumerPc  -- the loop that empties the queue

pub data Actor {ℓ} (E : Type ℓ) : Type ℓ where
  producer : E → Actor E  -- with the event that it pushes next
  consumer : Actor E

pub record State {ℓ} (E : Type ℓ) : Type ℓ where
  pub producer_pc : ProducerPc
  pub consumer_pc : ConsumerPc
  pub queue : List E
  pub fired : Bool
  pub pending : ℕ  -- bytes in the pipe
  pub sent : List E  -- what was pushed so far
  pub received : List E  -- what was popped so far

abbrev pub start : Order → ConsumerPc
start signal_first = testing
start drain_first = draining

abbrev pub after_signal : Order → ConsumerPc
after_signal signal_first = draining
after_signal drain_first = waiting

abbrev pub after_drain : Order → ConsumerPc
after_drain signal_first = waiting
after_drain drain_first = testing

module _ {ℓ} {E : Type ℓ} where
  abbrev pub init : State E
  init = record {
    producer_pc = idle;
    consumer_pc = waiting;
    queue = [];
    fired = false;
    pending = 0;
    sent = [];
    received = [];
  }

  unfoldable pub producer_step : ProducerPc → E → State E → State E
  producer_step idle x s = record s {
    producer_pc = pushed;
    queue = s.queue ++ x ∷ [];
    sent = s.sent ++ x ∷ [];
  }
  producer_step pushed x s = record s { producer_pc = if s.fired then idle else cleared }
  producer_step cleared x s = record s { producer_pc = stored; fired = true }
  producer_step stored x s = record s { producer_pc = idle; pending = suc s.pending }

  unfoldable pub pop_step : Order → List E → State E → State E
  pop_step o [] s = record s { consumer_pc = after_drain o }
  pop_step o (x ∷ rest) s = record s { queue = rest; received = s.received ++ x ∷ [] }

  -- `none`: the thread is blocked.
  unfoldable pub consumer_step : Order → ConsumerPc → State E → Option (State E)
  consumer_step o waiting s =
      if ltb 0 s.pending then some (record s { consumer_pc = start o }) else none
  consumer_step o testing s =
      some (record s { consumer_pc = if s.fired then reading else after_signal o })
  consumer_step o reading s =
      if ltb 0 s.pending
      then some (record s { consumer_pc = resetting; pending = s.pending - 1 })
      else none
  consumer_step o resetting s = some (record s { consumer_pc = after_signal o; fired = false })
  consumer_step o draining s = some (pop_step o s.queue s)

  unfoldable pub step : Order → Actor E → State E → Option (State E)
  unfolding producer_step consumer_step pop_step
  step o (producer x) s = some (producer_step s.producer_pc x s)
  step o consumer s = consumer_step o s.consumer_pc s

pub data Reach {ℓ} {E : Type ℓ} (o : Order) : State E → Type ℓ where
  here : Reach o init
  next : {s t : State E} (a : Actor E) → Reach o s → step o a s ≡ some t → Reach o t

-- A schedule: who moves next, as long as nobody is blocked.
unfoldable pub run {ℓ} : {E : Type ℓ} → Order → List (Actor E) → State E → Option (State E)
run o [] s = some s
run o (a ∷ rest) s = step o a s >>= run o rest

pub Reach-run {ℓ} :
    {E : Type ℓ} (o : Order) (moves : List (Actor E)) {s t : State E}
    → Reach o s
    → run o moves s ≡ some t
    → Reach o t
unfolding run
Reach-run o [] r h = subst (Reach o) (some-cancel h) r
Reach-run o (a ∷ rest) {s} r h =
    let (u, moved, later) = >>=-eq-some (step o a s) (run o rest) h in
    Reach-run o rest (next a r moved) later
