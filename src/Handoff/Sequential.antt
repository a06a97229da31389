-- ===== src/Handoff/Sequential.antt =====
-- The steps of one thread, taken without interruption, are the methods of PipedEvent.
use poc_event_manager.Prelude.{
  suc, if◌then◌else◌, ◌≡◌, ◌∙◌, ap, refl, Bool, true, false, some, List, [], ◌∷◌, pos, ◌==ℤ◌, to_ℕ,
  arith, inl, inr, Bool-cases,
}
use poc_event_manager.PipedEvent.Defs.{PipedEvent, fire, consume}
use poc_event_manager.Handoff.Defs.{
  Order, Actor, producer, consumer, idle, pushed, testing, State, after_signal, step, producer_step,
  consumer_step, run,
}

module _ {ℓ} {E : Type ℓ} where
  -- Both hold the same flag, and the pipe the byte that belongs to it.
  pub record Tracks (e : PipedEvent) (s : State E) : Type 0 where
    pub open_source : (e.source ==ℤ pos 0) ≡ false
    pub flag : s.fired ≡ e.fired
    pub byte : s.pending ≡ to_ℕ e.fired

  abbrev fire_moves : Bool → E → List (Actor E)
  fire_moves fired x = if fired then producer x ∷ [] else producer x ∷ producer x ∷ producer x ∷ []

  abbrev consume_moves : Bool → List (Actor E)
  consume_moves fired = if fired then consumer ∷ consumer ∷ consumer ∷ [] else consumer ∷ []

  fire-steps :
      (o : Order) (x : E) (e : PipedEvent) (s : State E)
      → s.producer_pc ≡ pushed
      → Tracks e s
      → (t : State E) × (run o (fire_moves e.fired x) s ≡ some t)
        × (t.producer_pc ≡ idle)
        × (t.consumer_pc ≡ s.consumer_pc)
        × Tracks (fire e) t
  unfolding run step producer_step fire
  fire-steps o x e s h k = elim (Bool-cases e.fired) [
    | inl set ↦ (
      record s { producer_pc = idle },
      rw (set, h, k.flag ∙ set) refl,
      refl,
      refl,
      ground (arith, set, k.flag, k.byte, k.open_source),
    )
    | inr clear ↦ (
      record s { producer_pc = idle; fired = true; pending = suc s.pending },
      rw (clear, h, k.flag ∙ clear) refl,
      refl,
      refl,
      ground (arith, clear, k.flag, k.byte, k.open_source),
    )
  ]

  consume-steps :
      (o : Order) (e : PipedEvent) (s : State E)
      → s.consumer_pc ≡ testing
      → Tracks e s
      → (t : State E) × (run o (consume_moves e.fired) s ≡ some t)
        × (t.consumer_pc ≡ after_signal o)
        × (t.producer_pc ≡ s.producer_pc)
        × Tracks (consume e) t
  unfolding run step consumer_step consume
  consume-steps o e s h k = elim (Bool-cases e.fired) [
    | inl set ↦ (
      record s { consumer_pc = after_signal o; fired = false; pending = 0 },
      rw (set, h, k.flag ∙ set, k.byte ∙ ap to_ℕ set) refl,
      refl,
      refl,
      ground (arith, set, k.flag, k.byte, k.open_source),
    )
    | inr clear ↦ (
      record s { consumer_pc = after_signal o },
      rw (clear, h, k.flag ∙ clear) refl,
      refl,
      refl,
      ground (arith, clear, k.flag, k.byte, k.open_source),
    )
  ]

  -- Where both threads are about to make their calls, flag and pipe agreeing with an open event: if
  -- the producer moves alone, its steps lead where `fire` does, and if the consumer moves alone,
  -- its steps lead where `consume` does. The thread is then past its call, the other has not moved,
  -- and flag and pipe agree again.
  pub steps-Tracks :
      (o : Order) (x : E) (e : PipedEvent) (s : State E)
      → Tracks e s
      → s.producer_pc ≡ pushed
      → s.consumer_pc ≡ testing
      → ((t : State E) × (run o (fire_moves e.fired x) s ≡ some t)
          × (t.producer_pc ≡ idle)
          × (t.consumer_pc ≡ s.consumer_pc)
          × Tracks (fire e) t)
        × ((t : State E) × (run o (consume_moves e.fired) s ≡ some t)
            × (t.consumer_pc ≡ after_signal o)
            × (t.producer_pc ≡ s.producer_pc)
            × Tracks (consume e) t)
  steps-Tracks o x e s k h g = (fire-steps o x e s h k, consume-steps o e s g k)
