-- ===== src/Manager/Interface.antt =====
-- The virtual functions of IManager<E>, as operations on the state `M` of one manager. `In` is what
-- a call takes from outside: random numbers, or whether a mutex is held by somebody else.
use Prim.Native.String.{String}
use poc_event_manager.Prelude.{◌≡◌, ◌⊎◌, Option, some, List, [], ◌∷◌, ◌++◌, ℤ}
use poc_event_manager.Counters.{Counters, increment_rx, increment_tx, increment_dropped}

pub record IManager (In E M : Type 0) : Type 0 where
  pub get_sources : M → ℤ
  pub pre_run_impl : M → M
  pub run_impl : In → M → Option M  -- `none`: the call faults or never returns
  pub consume : E → M → M
  pub produce : In → M → Option (List E × M)  -- `none` likewise
  pub thread_name : String

-- `IConsumer::Consume1`: a batch is consumed one by one.
unfoldable pub consume1 : {In E M : Type 0} → IManager In E M → List E → M → M
consume1 ops [] m = m
consume1 ops (e ∷ es) m = consume1 ops es (ops.consume e m)

-- What a manager with a queue promises. `queued` is what waits in the queue, oldest first.
pub record IsConserving {In E M : Type 0} (ops : IManager In E M) : Type 1 where
  pub IsValid : M → Type 0
  pub queued : M → List E
  pub counters : M → Counters
  pub offers : In → E  -- the event that a call of _runImpl makes
  -- _runImpl does not fault; it counts its event as sent and puts it into the queue, or counts it
  -- as dropped.
  pub run_lem :
      (i : In) (m : M)
      → IsValid m
      → (m' : M) × (ops.run_impl i m ≡ some m')
        × IsValid m'
        × (((queued m' ≡ queued m ++ offers i ∷ []) × (counters m' ≡ increment_tx (counters m)))
            ⊎ ((queued m' ≡ queued m) × (counters m' ≡ increment_dropped (counters m))))
  -- Produce does not fault; it hands over the front of the queue, and counts nothing.
  pub produce_lem :
      (i : In) (m : M)
      → IsValid m
      → (es : List E) × (m' : M) × (ops.produce i m ≡ some (es, m'))
        × IsValid m'
        × (queued m ≡ es ++ queued m')
        × (counters m' ≡ counters m)
  -- Consume counts one event as received.
  pub consume_lem :
      (e : E) (m : M)
      → IsValid m
      → IsValid (ops.consume e m)
        × (queued (ops.consume e m) ≡ queued m)
        × (counters (ops.consume e m) ≡ increment_rx (counters m))
  pub pre_run_lem : (m : M) → ops.pre_run_impl m ≡ m
