-- ===== src/Handoff/Arrival.antt =====
-- Whether every event gets through, once the producing thread rests.
use poc_event_manager.Prelude.{
  ℕ, ◌+◌, ◌≤◌, ◌≡◌, refl, sym, ◌∙◌, Bool, true, false, some, List, [], ◌∷◌, length, arith,
}
use poc_event_manager.Handoff.Defs.{
  signal_first, idle, ConsumerPc, waiting, testing, reading, resetting, draining, State,
  consumer_step, step, Reach,
}
use poc_event_manager.Handoff.Invariant.{IsBalanced, Reach-IsBalanced, Reach-IsFifo}
use poc_event_manager.Handoff.Wakeup.{IsAwaited, Reach-IsAwaited}
use poc_event_manager.Handoff.Draining.{
  turns, Settles, later, from_draining, from_resetting, from_reading, from_testing, from_waiting,
  drain_again, more, stay,
}

module _ {ℓ} {E : Type ℓ} where
  empty_queue :
      (q : List E) (s : State E)
      → s.queue ≡ q
      → IsAwaited s
      → s.producer_pc ≡ idle
      → s.consumer_pc ≡ waiting
      → s.pending ≡ 0
      → s.queue ≡ []
  empty_queue [] s e a i c p = e
  empty_queue (x ∷ rest) s e a i c p = ground (arith, a c (λ n. cc (n, e)))

  settle :
      (c : ConsumerPc) (f : Bool) (s : State E)
      → s.consumer_pc ≡ c
      → s.fired ≡ f
      → IsBalanced s
      → IsAwaited s
      → s.producer_pc ≡ idle
      → Settles 6 s
  unfolding step consumer_step
  settle waiting true s c f b a i =
      more 5 6 s (omega arith) (from_waiting s c f (ground (arith, b.flag)))
  settle waiting false s c f b a i =
      let p : s.pending ≡ 0 = ground (arith, b.flag) in
      stay s c (empty_queue s.queue s refl a i c p) p
  settle testing true s c f b a i =
      more 4 6 s (omega arith) (from_testing s c f (ground (arith, b.flag)))
  settle testing false s c f b a i =
      let p : s.pending ≡ 0 = ground (arith, b.flag) in
      let s' = record s { consumer_pc = draining } in
      more 2 6 s (omega arith) (later 1 s s' (ground arith) refl refl (from_draining s' refl p))
  settle reading true s c f b a i =
      more 3 6 s (omega arith) (from_reading s c (ground (arith, b.flag)))
  settle reading false s c f b a i = absurd (ground (arith, b.seen_set))
  settle resetting true s c f b a i =
      more 2 6 s (omega arith) (from_resetting s c (ground (arith, b.flag)))
  settle resetting false s c f b a i =
      more 2 6 s (omega arith) (from_resetting s c (ground (arith, b.flag)))
  settle draining true s c f b a i = drain_again s c f (ground (arith, b.flag))
  settle draining false s c f b a i =
      more 1 6 s (omega arith) (from_draining s c (ground (arith, b.flag)))

  -- Where Produce consumes the signal before it empties the queue: in every reachable state in
  -- which the producing thread is between two events, the main thread alone, without being blocked,
  -- gets every event that was ever sent, in order, within six steps more than there are events in
  -- the queue. Then it sleeps, and the pipe is empty.
  pub turns-settles :
      {s : State E}
      → Reach signal_first s
      → s.producer_pc ≡ idle
      → (n : ℕ) × (t : State E) × (n ≤ length s.queue + 6)
        × (turns n s ≡ some t)
        × (t.received ≡ s.sent)
        × (t.queue ≡ [])
        × (t.consumer_pc ≡ waiting)
        × (t.pending ≡ 0)
  turns-settles {s} r i =
      let d =
        settle s.consumer_pc s.fired s refl refl (Reach-IsBalanced signal_first r)
          (Reach-IsAwaited r) i in
      (
        d.count,
        d.last,
        d.within,
        d.runs,
        d.arrived ∙ sym (Reach-IsFifo signal_first r),
        d.empty,
        d.asleep,
        d.silent,
      )
