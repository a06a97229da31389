-- ===== src/Handoff/Wakeup.antt =====
-- Whether the main thread can sleep on events that wait for it.
use poc_event_manager.Prelude.{
  ◌<◌, ◌≤◌, ◌≡◌, ◌≢◌, refl, none, some, List, [], ◌∷◌, arith, ◌⊎◌, inl, inr, Bool-cases, ltb,
  some-cancel, subst,
}
use poc_event_manager.Handoff.Defs.{
  Order, signal_first, drain_first, ProducerPc, idle, pushed, cleared, stored, ConsumerPc, waiting,
  testing, reading, resetting, draining, Actor, producer, consumer, State, producer_step, pop_step,
  consumer_step, step, Reach, here, next, run, Reach-run,
}
use poc_event_manager.Handoff.Invariant.{IsBalanced, Reach-IsBalanced}

module _ {ℓ} {E : Type ℓ} where
  -- Events wait only where a wake-up is under way.
  abbrev pub IsAwaited : State E → Type ℓ
  IsAwaited s = s.consumer_pc ≡ waiting → s.queue ≢ [] → (s.producer_pc ≢ idle) ⊎ (0 < s.pending)

  producer-IsAwaited :
      (p : ProducerPc) (x : E) (s : State E)
      → s.producer_pc ≡ p
      → IsBalanced s
      → IsAwaited s
      → IsAwaited (producer_step p x s)
  unfolding producer_step
  producer-IsAwaited idle x s e b w c q = ground arith
  producer-IsAwaited pushed x s e b w c q = ground arith
  producer-IsAwaited cleared x s e b w c q = ground arith
  producer-IsAwaited stored x s e b w c q = ground arith

  pop-IsAwaited :
      (q : List E) (s : State E)
      → s.queue ≡ q
      → s.consumer_pc ≡ draining
      → IsAwaited (pop_step signal_first q s)
  unfolding pop_step
  pop-IsAwaited [] s e d c ne = absurd (ne e)
  pop-IsAwaited (x ∷ rest) s e d c ne = ground arith

  consumer-IsAwaited :
      (k : ConsumerPc) (s : State E) {t : State E}
      → s.consumer_pc ≡ k
      → consumer_step signal_first k s ≡ some t
      → IsAwaited t
  unfolding consumer_step
  consumer-IsAwaited waiting s e h c q = ground arith
  consumer-IsAwaited testing s e h c q = ground arith
  consumer-IsAwaited reading s e h c q = ground arith
  consumer-IsAwaited resetting s e h c q = ground arith
  consumer-IsAwaited draining s e h c q =
      subst IsAwaited (some-cancel h) (pop-IsAwaited s.queue s refl e) c q

  pub Reach-IsAwaited : {s : State E} → Reach signal_first s → IsAwaited s
  unfolding step
  Reach-IsAwaited here = λ c q. absurd (q refl)
  Reach-IsAwaited (next {s = s} (producer x) r h) = subst IsAwaited (some-cancel h) (
      producer-IsAwaited s.producer_pc x s refl (Reach-IsBalanced signal_first r)
        (Reach-IsAwaited r))
  Reach-IsAwaited (next {s = s} consumer r h) = consumer-IsAwaited s.consumer_pc s refl h

  -- Where Produce consumes the signal before it empties the queue, no wake-up is lost: whenever the
  -- producing thread is between two events and the main thread is in epoll_wait while events are
  -- queued, the pipe holds a byte, so the wait returns.
  pub no_lost_wakeup :
      {s : State E}
      → Reach signal_first s
      → s.producer_pc ≡ idle
      → s.consumer_pc ≡ waiting
      → s.queue ≢ []
      → (0 < s.pending) × ((t : State E) × (step signal_first consumer s ≡ some t))
  unfolding step consumer_step
  no_lost_wakeup {s} r p c q =
      let pending : 0 < s.pending = ground (arith, Reach-IsAwaited r c q) in
      (pending, (record s { consumer_pc = testing }, ground arith))

  reading_lem :
      (c : ConsumerPc) (s : State E)
      → s.consumer_pc ≡ c
      → IsBalanced s
      → s.pending ≡ 0
      → (s.consumer_pc ≢ reading) ⊎ (s.producer_pc ≡ stored)
  reading_lem waiting s h b e = inl (λ r. cc (h, r))
  reading_lem testing s h b e = inl (λ r. cc (h, r))
  reading_lem reading s h b e = inr (ground (arith, h, b))
  reading_lem resetting s h b e = inl (λ r. cc (h, r))
  reading_lem draining s h b e = inl (λ r. cc (h, r))

  -- In either order the pipe never holds more than one byte, so Fire never blocks in `write`; and
  -- it holds a byte, or Consume is not in `read`, or the producer is about to write one, so that
  -- `read` does not block for good.
  pub pipe_bounds :
      (o : Order) {s : State E}
      → Reach o s
      → (s.pending ≤ 1) × ((0 < s.pending) ⊎ ((s.consumer_pc ≢ reading) ⊎ (s.producer_pc ≡ stored)))
  pipe_bounds o {s} r =
      let b = Reach-IsBalanced o r in
      (
        ground (arith, b),
        elim (Bool-cases (ltb 0 s.pending)) [
          | inl some_byte ↦ inl (ground (arith, some_byte))
          | inr no_byte ↦ inr (reading_lem s.consumer_pc s refl b (ground (arith, no_byte)))
        ],
      )

  abbrev overtaken : E → E → List (Actor E)
  overtaken x y =
      producer x
      ∷ producer x
      ∷ producer x
      ∷ producer x
      ∷ consumer
      ∷ consumer
      ∷ consumer
      ∷ producer y
      ∷ producer y
      ∷ consumer
      ∷ consumer
      ∷ consumer
      ∷ []

  -- Where Produce empties the queue first, a wake-up can be lost, whatever the events are: a second
  -- event is pushed after the queue was found empty and before the signal is consumed. Then it is
  -- queued while the producing thread is between two events and the main thread is blocked in
  -- epoll_wait.
  pub lost_wakeup :
      (x y : E)
      → (s : State E) × Reach drain_first s
        × (s.queue ≡ y ∷ [])
        × (s.producer_pc ≡ idle)
        × (s.consumer_pc ≡ waiting)
        × (step drain_first consumer s ≡ none)
  unfolding run step consumer_step
  lost_wakeup x y = (_, Reach-run drain_first (overtaken x y) here refl, refl, refl, refl, refl)
