-- ===== src/Handoff/Invariant.antt =====
-- What every interleaving keeps.
use poc_event_manager.Prelude.{
  ℕ, ◌+◌, ◌≡◌, refl, true, false, some, List, [], ◌∷◌, ◌++◌, to_ℕ, arith, append_assoc, some-cancel,
  subst, ap, sym, ◌∙◌,
}
use poc_event_manager.Handoff.Defs.{
  Order, ProducerPc, idle, pushed, cleared, stored, ConsumerPc, waiting, testing, reading,
  resetting, draining, Actor, producer, consumer, State, init, producer_step, pop_step,
  consumer_step, step, Reach, here, next,
}

abbrev is_stored : ProducerPc → ℕ
is_stored stored = 1
is_stored _ = 0

abbrev is_resetting : ConsumerPc → ℕ
is_resetting resetting = 1
is_resetting _ = 0

module _ {ℓ} {E : Type ℓ} where
  -- The flag is set from the store in Fire to the store in Consume; the byte follows it.
  pub record IsBalanced (s : State E) : Type ℓ where
    pub flag : s.pending + is_resetting s.consumer_pc + is_stored s.producer_pc ≡ to_ℕ s.fired
    pub seen_clear : s.producer_pc ≡ cleared → s.fired ≡ false
    pub seen_set : s.consumer_pc ≡ reading → s.fired ≡ true

  producer-IsBalanced :
      (p : ProducerPc) (x : E) (s : State E)
      → s.producer_pc ≡ p
      → IsBalanced s
      → IsBalanced (producer_step p x s)
  unfolding producer_step
  producer-IsBalanced idle x s e b = ground arith
  producer-IsBalanced pushed x s e b = ground arith
  producer-IsBalanced cleared x s e b = ground arith
  producer-IsBalanced stored x s e b = ground arith

  consumer-IsBalanced :
      (o : Order) (c : ConsumerPc) (s : State E) {t : State E}
      → s.consumer_pc ≡ c
      → consumer_step o c s ≡ some t
      → IsBalanced s
      → IsBalanced t
  unfolding consumer_step pop_step
  consumer-IsBalanced o waiting s e h b = ground arith
  consumer-IsBalanced o testing s e h b = ground arith
  consumer-IsBalanced o reading s e h b = ground arith
  consumer-IsBalanced o resetting s e h b = ground arith
  consumer-IsBalanced o draining s e h b = ground arith

  step-IsBalanced :
      (o : Order) (a : Actor E) (s : State E) {t : State E}
      → step o a s ≡ some t
      → IsBalanced s
      → IsBalanced t
  unfolding step
  step-IsBalanced o (producer x) s {t} h b =
      subst IsBalanced (some-cancel h) (producer-IsBalanced s.producer_pc x s refl b)
  step-IsBalanced o consumer s h b = consumer-IsBalanced o s.consumer_pc s refl h b

  init-IsBalanced : IsBalanced (init {E = E})
  init-IsBalanced = record { flag = refl; seen_clear = λ e. refl; seen_set = λ e. cc }

  pub Reach-IsBalanced : (o : Order) {s : State E} → Reach o s → IsBalanced s
  Reach-IsBalanced o here = init-IsBalanced
  Reach-IsBalanced o (next a r h) = step-IsBalanced o a _ h (Reach-IsBalanced o r)

  -- Nothing is lost, doubled or reordered on the way through the queue.
  abbrev IsFifo : State E → Type ℓ
  IsFifo s = s.sent ≡ s.received ++ s.queue

  producer-IsFifo : (p : ProducerPc) (x : E) (s : State E) → IsFifo s → IsFifo (producer_step p x s)
  unfolding producer_step
  producer-IsFifo idle x s f = rw f (append_assoc s.received s.queue (x ∷ []))
  producer-IsFifo pushed x s f = f
  producer-IsFifo cleared x s f = f
  producer-IsFifo stored x s f = f

  pop-IsFifo :
      (o : Order) (q : List E) (s : State E) → s.queue ≡ q → IsFifo s → IsFifo (pop_step o q s)
  unfolding pop_step
  pop-IsFifo o [] s e f = f
  pop-IsFifo o (x ∷ rest) s e f =
      f ∙ ap (◌++◌ s.received) e ∙ sym (append_assoc s.received (x ∷ []) rest)

  consumer-IsFifo :
      (o : Order) (c : ConsumerPc) (s : State E) {t : State E}
      → consumer_step o c s ≡ some t
      → IsFifo s
      → IsFifo t
  unfolding consumer_step
  consumer-IsFifo o waiting s h f = ground arith
  consumer-IsFifo o testing s h f = ground arith
  consumer-IsFifo o reading s h f = ground arith
  consumer-IsFifo o resetting s h f = ground arith
  consumer-IsFifo o draining s h f = subst IsFifo (some-cancel h) (pop-IsFifo o s.queue s refl f)

  step-IsFifo :
      (o : Order) (a : Actor E) (s : State E) {t : State E}
      → step o a s ≡ some t
      → IsFifo s
      → IsFifo t
  unfolding step
  step-IsFifo o (producer x) s h f =
      subst IsFifo (some-cancel h) (producer-IsFifo s.producer_pc x s f)
  step-IsFifo o consumer s h f = consumer-IsFifo o s.consumer_pc s h f

  -- In either order and under every schedule of the two threads, what was pushed so far is what was
  -- popped so far followed by what is queued: nothing is lost, repeated or reordered.
  pub Reach-IsFifo : (o : Order) {s : State E} → Reach o s → s.sent ≡ s.received ++ s.queue
  Reach-IsFifo o here = refl
  Reach-IsFifo o (next a r h) = step-IsFifo o a _ h (Reach-IsFifo o r)
