-- ===== src/PipedEvent/Signalled.antt =====
-- The event as the signal of a queue, where queue and event change together under one mutex.
use poc_event_manager.Prelude.{
  ◌+◌, ◌≡◌, Bool, true, false, some, List, [], ◌∷◌, ◌++◌, ℤ, pos, ◌==ℤ◌, to_ℕ, arith,
}
use poc_event_manager.PipedEvent.Defs.{PipedEvent, construct, fire, consume}
use poc_event_manager.PipedEvent.Pending.{writes, reads}

module _ {ℓ} {E : Type ℓ} where
  abbrev pub is_nonempty : List E → Bool
  is_nonempty [] = false
  is_nonempty (x ∷ xs) = true

  -- The flag is set exactly while something is queued, and then the pipe holds one byte.
  pub record IsSignalled (e : PipedEvent) (queue : List E) : Type ℓ where
    pub open_source : (e.source ==ℤ pos 0) ≡ false
    pub flag : e.fired ≡ is_nonempty queue
    pub pipe : writes e.log ≡ reads e.log + to_ℕ (is_nonempty queue)

  pub construct-IsSignalled :
      (source sink : ℤ) {e : PipedEvent}
      → (source ==ℤ pos 0) ≡ false
      → construct (some (source, sink)) ≡ some e
      → IsSignalled e []
  unfolding construct
  construct-IsSignalled source sink h c = ground arith

  pub fire-IsSignalled :
      (e : PipedEvent) (queue : List E) (x : E)
      → IsSignalled e queue
      → IsSignalled (fire e) (queue ++ x ∷ [])
  unfolding fire
  fire-IsSignalled e [] x s = ground arith
  fire-IsSignalled e (y ∷ ys) x s = ground arith

  pub consume-IsSignalled :
      (e : PipedEvent) (queue : List E) → IsSignalled e queue → IsSignalled (consume e) []
  unfolding consume
  consume-IsSignalled e [] s = ground arith
  consume-IsSignalled e (y ∷ ys) s = ground arith
