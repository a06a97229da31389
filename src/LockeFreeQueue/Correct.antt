-- ===== src/LockeFreeQueue/Correct.antt =====
-- inc/LockeFreeQueue.h, over every interleaving of its threads.
use poc_event_manager.Prelude.{
  ℕ, ◌≡◌, refl, none, some, List, ◌++◌, length, take, take_rest, take_all, arith, ◌∙◌, sym, ap,
  subst, some-cancel, inl, inr, Bool-cases, ltb,
}
use poc_event_manager.LockeFreeQueue.Defs.{
  idle, testing, Actor, producer, consumer, State, init, step, Reach, start, later,
}
use poc_event_manager.LockeFreeQueue.Invariant.{IsLinked}
use poc_event_manager.LockeFreeQueue.Producing.{producer-IsLinked}
use poc_event_manager.LockeFreeQueue.Consuming.{consumer-IsLinked}

module _ {ℓ} {T : Type ℓ} where
  init-IsLinked : IsLinked (init {T = T})
  init-IsLinked = record {
    last = refl;
    numbered = refl;
    within = omega arith;
    alive = λ k a b. ground arith;
    allocated = λ k a. ground arith;
    ascending = λ k j e. cc;
    pending = λ i n p e. cc;
    apart = λ i j n p m a b. cc;
    owed = λ k b e. absurd (omega (arith, b));
    loaded = tt;
    counted = omega arith;
    prefix = refl;
    stored = λ k a b. absurd (omega (arith, b));
  }

  step-IsLinked :
      (a : Actor T) (s : State T) → IsLinked s → (t : State T) × (step a s ≡ some t) × IsLinked t
  unfolding step
  step-IsLinked (producer i x) s v = producer-IsLinked (s.producer_pc i) i x s refl v
  step-IsLinked consumer s v = consumer-IsLinked s.consumer_pc s refl v

  pub Reach-IsLinked : {s : State T} → Reach s → IsLinked s
  Reach-IsLinked start = init-IsLinked
  Reach-IsLinked (later {s = s} a r e) =
      let (t, e', v) = step-IsLinked a s (Reach-IsLinked r) in
      subst IsLinked (some-cancel (sym e' ∙ e)) v

  -- In every state that any number of appending threads and one emptying thread can reach, every
  -- thread can take its next step: none waits for another, none touches a node that was deleted,
  -- and no object is moved out twice.
  pub step_total : {s : State T} → Reach s → (a : Actor T) → (t : State T) × (step a s ≡ some t)
  step_total {s} r a = let (t, e, v) = step-IsLinked a s (Reach-IsLinked r) in (t, e)

  -- What swap has put out so far is, in the order of the exchanges, the front of what was appended.
  pub Reach-IsPrefix : {s : State T} → Reach s → (rest : List T) × (s.sent ≡ s.received ++ rest)
  Reach-IsPrefix {s} r =
      let (rest, e) = take_rest (length s.received) s.sent in
      (rest, e ∙ ap (λ (l : List T). l ++ rest) (sym (Reach-IsLinked r).prefix))

  -- Where swap is about to end, its node still has no next one, and no thread is between its
  -- exchange and its store, everything that was appended has been put out.
  pub swap-takes_all :
      {s : State T} (cur : ℕ)
      → Reach s
      → s.consumer_pc ≡ testing cur none
      → s.next cur ≡ none
      → ((i : ℕ) → s.producer_pc i ≡ idle)
      → s.received ≡ s.sent
  swap-takes_all {s} cur r h e q =
      let v = Reach-IsLinked r in
      elim (Bool-cases (ltb cur s.tail)) [
        | inl below ↦
            let (i, owed) = v.owed cur (ground (arith, below)) e in absurd (cc (owed, q i))
        | inr end ↦
            v.prefix
            ∙ ap (λ n. take n s.sent) (ground (arith, h, v.counted, v.numbered, v.within))
            ∙ take_all s.sent
      ]
