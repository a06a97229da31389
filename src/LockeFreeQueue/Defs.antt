-- ===== src/LockeFreeQueue/Defs.antt =====
-- The threads of inc/LockeFreeQueue.h as a step function, over a memory of nodes. A node is named
-- by a number that no other node gets; `new Node` is thread-local, so it is one step with the
-- exchange that publishes the node. A `none` of `step` is an access to a node that was deleted, or
-- to an object that was moved out.
use poc_event_manager.Prelude.{
  ℕ, suc, ◌≡◌, Bool, true, false, Option, none, some, ◌>>=◌, List, [], ◌∷◌, ◌++◌, if◌then◌else◌,
  update,
}

pub data ProducerPc : Type 0 where
  idle : ProducerPc
  -- emplace_back has exchanged `tail_` and is about to store `prev->next`
  linking : (node prev : ℕ) → ProducerPc

pub data ConsumerPc : Type 0 where
  resting : ConsumerPc  -- outside swap
  loading : (cur : ℕ) → ConsumerPc  -- about to load `cur->next`
  testing : (cur : ℕ) (next : Option ℕ) → ConsumerPc  -- at the test of the loop
  taking : (cur : ℕ) → ConsumerPc  -- has deleted the node before, about to move `cur->data`

pub data Actor {ℓ} (T : Type ℓ) : Type ℓ where
  producer : ℕ → T → Actor T  -- a thread, with what it appends next
  consumer : Actor T

pub record State {ℓ} (T : Type ℓ) : Type ℓ where
  pub next : ℕ → Option ℕ  -- `node->next`; `none` is nullptr
  pub payload : ℕ → Option T  -- `node->data`; `none` if there is nothing, or no more
  pub live : ℕ → Bool  -- allocated and not deleted
  pub fresh : ℕ  -- the name of the next node
  pub head : ℕ  -- head_
  pub tail : ℕ  -- tail_
  pub producer_pc : ℕ → ProducerPc
  pub consumer_pc : ConsumerPc
  pub sent : List T  -- what was appended, in order of the exchanges
  pub received : List T  -- what swap has put out

module _ {ℓ} {T : Type ℓ} where
  -- The constructor makes a node without data.
  abbrev pub init : State T
  init = record {
    next = λ n. none;
    payload = λ n. none;
    live = update (λ n. false) 0 true;
    fresh = 1;
    head = 0;
    tail = 0;
    producer_pc = λ i. idle;
    consumer_pc = resting;
    sent = [];
    received = [];
  }

  abbrev pub exchange : ℕ → T → State T → State T
  exchange i x s = record {
    next = update s.next s.fresh none;
    payload = update s.payload s.fresh (some x);
    live = update s.live s.fresh true;
    fresh = suc s.fresh;
    head = s.head;
    tail = s.fresh;
    producer_pc = update s.producer_pc i (linking s.fresh s.tail);
    consumer_pc = s.consumer_pc;
    sent = s.sent ++ x ∷ [];
    received = s.received;
  }

  abbrev pub link : ℕ → ℕ → ℕ → State T → State T
  link i node prev s = record s {
    next = update s.next prev (some node);
    producer_pc = update s.producer_pc i idle;
  }

  -- `emplace_back`
  unfoldable pub producer_step : ProducerPc → ℕ → T → State T → Option (State T)
  producer_step idle i x s = some (exchange i x s)
  producer_step (linking node prev) i x s = if s.live prev then some (link i node prev s) else none

  abbrev pub move : ℕ → T → State T → State T
  move cur x s = record s {
    payload = update s.payload cur none;
    received = s.received ++ x ∷ [];
    consumer_pc = loading cur;
  }

  -- `swap`
  unfoldable pub consumer_step : ConsumerPc → State T → Option (State T)
  consumer_step resting s = some (record s { consumer_pc = loading s.head })
  consumer_step (loading cur) s =
      if s.live cur then some (record s { consumer_pc = testing cur (s.next cur) }) else none
  consumer_step (testing cur none) s = some (record s { head = cur; consumer_pc = resting })
  consumer_step (testing cur (some n)) s =
      if s.live cur
      then some (record s { live = update s.live cur false; consumer_pc = taking n })
      else none
  consumer_step (taking cur) s =
      if s.live cur then (s.payload cur >>= (λ x. some (move cur x s))) else none

  unfoldable pub step : Actor T → State T → Option (State T)
  unfolding producer_step consumer_step
  step (producer i x) s = producer_step (s.producer_pc i) i x s
  step consumer s = consumer_step s.consumer_pc s

pub data Reach {ℓ} {T : Type ℓ} : State T → Type ℓ where
  start : Reach init
  later : {s t : State T} (a : Actor T) → Reach s → step a s ≡ some t → Reach t
