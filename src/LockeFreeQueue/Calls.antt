-- ===== src/LockeFreeQueue/Calls.antt =====
-- `emplace_back` and `swap` of inc/LockeFreeQueue.h as whole calls, with nobody else inside the
-- queue.
use poc_event_manager.Prelude.{
  ℕ, zero, suc, ◌+◌, ◌-◌, ◌≤◌, ◌<◌, ◌≡◌, refl, true, false, Bool, Option, none, some, ◌>>=◌, [],
  ◌∷◌, ◌++◌, length, if◌then◌else◌, arith, ◌∙◌, sym, ap, subst, update, Option-cases, inl, inr,
}
use poc_event_manager.LockeFreeQueue.Defs.{
  idle, linking, ConsumerPc, resting, loading, testing, taking, producer, consumer, State, exchange,
  link, move, producer_step, consumer_step, step, Reach, later,
}
use poc_event_manager.LockeFreeQueue.Invariant.{IsLinked}
use poc_event_manager.LockeFreeQueue.Correct.{Reach-IsLinked, swap-takes_all}
use poc_event_manager.LockeFreeQueue.Producing.{unlinked_tail}
use poc_event_manager.LockeFreeQueue.Consuming.{taking_lem}

abbrev is_resting : ConsumerPc → Bool
is_resting resting = true
is_resting _ = false

-- Three steps for each event and three for the end.
abbrev fuel_for : ℕ → ℕ
fuel_for zero = 3
fuel_for (suc n) = suc (suc (suc (fuel_for n)))

module _ {T : Type 0} where
  -- `emplace_back(x)` by thread `i`
  unfoldable pub emplace_back : ℕ → T → State T → Option (State T)
  emplace_back i x s = step (producer i x) s >>= step (producer i x)

  -- Steps of the consumer until it is outside swap; `none` also where the fuel runs out.
  unfoldable pub finish : ℕ → State T → Option (State T)
  finish zero s = none
  finish (suc fuel) s =
      let later = step consumer s >>= finish fuel in
      if is_resting s.consumer_pc then some s else later

  unfoldable pub swap : State T → Option (State T)
  swap s = step consumer s >>= finish (fuel_for (length s.sent))

  -- Nobody is inside.
  pub record IsQuiet (s : State T) : Type 0 where
    pub reach : Reach s
    pub producers : (i : ℕ) → s.producer_pc i ≡ idle
    pub consumer_out : s.consumer_pc ≡ resting

  pub emplace_back_lem :
      (i : ℕ) (x : T) (s : State T)
      → IsQuiet s
      → (t : State T) × (emplace_back i x s ≡ some t)
        × IsQuiet t
        × (t.sent ≡ s.sent ++ x ∷ [])
        × (t.received ≡ s.received)
  unfolding emplace_back step producer_step
  emplace_back_lem i x s q =
      let v = Reach-IsLinked q.reach in
      let first : step (producer i x) s ≡ some (exchange i x s) = rw (q.producers i) refl in
      let between : (exchange i x s).producer_pc i ≡ linking s.fresh s.tail = ground arith in
      let alive : (exchange i x s).live s.tail ≡ true =
        ground (arith, v.last, v.alive s.tail v.within (omega arith)) in
      let second : step (producer i x) (exchange i x s)
          ≡ some (link i s.fresh s.tail (exchange i x s)) =
        rw (between, alive) refl in
      (
        link i s.fresh s.tail (exchange i x s),
        rw (first, second) refl,
        record {
          reach = later (producer i x) (later (producer i x) q.reach first) second;
          producers = λ j. ground (arith, q.producers j);
          consumer_out = q.consumer_out;
        },
        refl,
        refl,
      )

  finish-step :
      (fuel : ℕ) (s t : State T)
      → is_resting s.consumer_pc ≡ false
      → step consumer s ≡ some t
      → finish (suc fuel) s ≡ finish fuel t
  unfolding finish
  finish-step fuel s t h e = rw (h, e) refl

  load_lem :
      (cur : ℕ) (o : Option ℕ) (s : State T)
      → s.consumer_pc ≡ loading cur
      → IsLinked s
      → s.next cur ≡ o
      → step consumer s ≡ some (record s { consumer_pc = testing cur o })
  unfolding step consumer_step
  load_lem cur o s h v e =
      ap (λ pc. consumer_step pc s) h
      ∙ rw (v.alive cur (ground (arith, h)) (ground (arith, h, v.within)), e) refl

  -- With no producer inside, the consumer at the last node leaves swap with everything.
  end_lem :
      (fuel cur : ℕ) (s : State T)
      → Reach s
      → ((i : ℕ) → s.producer_pc i ≡ idle)
      → s.consumer_pc ≡ loading cur
      → cur ≡ s.tail
      → (t : State T) × (finish (suc (suc (suc fuel))) s ≡ some t)
        × IsQuiet t
        × (t.sent ≡ s.sent)
        × (t.received ≡ s.sent)
  unfolding finish step consumer_step
  end_lem fuel cur s r q h e =
      let v = Reach-IsLinked r in
      let alone : s.next cur ≡ none = subst (λ k. s.next k ≡ none) (sym e) (unlinked_tail s v) in
      let s1 : State T = record s { consumer_pc = testing cur none } in
      let s2 : State T = record s { head = cur; consumer_pc = resting } in
      let first = load_lem cur none s h v alone in
      let r1 : Reach s1 = later consumer r first in
      (
        s2,
        finish-step (suc (suc fuel)) s s1 (ap is_resting h) first
            ∙ finish-step (suc fuel) s1 s2 refl refl,
        record { reach = later consumer r1 refl; producers = q; consumer_out = refl },
        refl,
        swap-takes_all cur r1 refl alone q,
      )

  -- The consumer at a node before the last goes on to the next node in three steps.
  next_lem :
      (cur : ℕ) (s : State T)
      → Reach s
      → ((i : ℕ) → s.producer_pc i ≡ idle)
      → s.consumer_pc ≡ loading cur
      → cur < s.tail
      → (t : State T) × Reach t
        × ((i : ℕ) → t.producer_pc i ≡ idle)
        × (t.consumer_pc ≡ loading (suc cur))
        × (t.tail ≡ s.tail)
        × (t.sent ≡ s.sent)
        × ((fuel : ℕ) → finish (suc (suc (suc fuel))) s ≡ finish fuel t)
  unfolding step consumer_step
  next_lem cur s r q h below =
      let v = Reach-IsLinked r in
      let linked : s.next cur ≡ some (suc cur) = elim (Option-cases (s.next cur)) [
        | inl e ↦ let (i, owed) = v.owed cur below e in absurd (cc (owed, q i))
        | inr (n, e) ↦ e ∙ ap some (v.ascending cur n e).0
      ] in
      let s1 : State T = record s { consumer_pc = testing cur (some (suc cur)) } in
      let s2 : State T = record s {
        live = update s.live cur false;
        consumer_pc = taking (suc cur);
      } in
      let first = load_lem cur (some (suc cur)) s h v linked in
      let r1 : Reach s1 = later consumer r first in
      let second : step consumer s1 ≡ some s2 =
        rw (v.alive cur (ground (arith, h)) (omega (arith, below))) refl in
      let r2 : Reach s2 = later consumer r1 second in
      let (x, e, third) = taking_lem (suc cur) s2 refl (Reach-IsLinked r2) in
      (
        move (suc cur) x s2,
        later consumer r2 third,
        q,
        refl,
        refl,
        refl,
        λ fuel.
            finish-step (suc (suc fuel)) s s1 (ap is_resting h) first
            ∙ finish-step (suc fuel) s1 s2 refl second
            ∙ finish-step fuel s2 (move (suc cur) x s2) refl third,
      )

  finish_lem :
      (n left cur : ℕ) (s : State T)
      → Reach s
      → ((i : ℕ) → s.producer_pc i ≡ idle)
      → s.consumer_pc ≡ loading cur
      → cur + left ≡ s.tail
      → left ≤ n
      → (t : State T) × (finish (fuel_for n) s ≡ some t)
        × IsQuiet t
        × (t.sent ≡ s.sent)
        × (t.received ≡ s.sent)
  finish_lem zero left cur s r q h e b = end_lem zero cur s r q h (omega (arith, e, b))
  finish_lem (suc n) zero cur s r q h e b = end_lem (fuel_for n) cur s r q h (omega (arith, e))
  finish_lem (suc n) (suc left) cur s r q h e b =
      let (s', r', q', h', same_tail, same_sent, steps) = next_lem cur s r q h (omega (arith, e)) in
      let (t, done, quiet, sent, received) =
        finish_lem n left (suc cur) s' r' q' h' (omega (arith, e, same_tail)) (omega (arith, b)) in
      (t, steps (fuel_for n) ∙ done, quiet, sent ∙ same_sent, received ∙ same_sent)

  -- swap, with nobody else inside, ends with no fault and puts out what is left of what was
  -- appended.
  pub swap_lem :
      (s : State T)
      → IsQuiet s
      → (t : State T) × (swap s ≡ some t) × IsQuiet t × (t.sent ≡ s.sent) × (t.received ≡ s.sent)
  unfolding swap step consumer_step
  swap_lem s q =
      let s1 : State T = record s { consumer_pc = loading s.head } in
      let first : step consumer s ≡ some s1 = ap (λ pc. consumer_step pc s) q.consumer_out in
      let v = Reach-IsLinked q.reach in
      let at : s.head ≤ s.tail = ground (arith, q.consumer_out, v.within) in
      let (t, done, quiet, sent, received) =
        finish_lem (length s.sent) (s.tail - s.head) s.head s1 (later consumer q.reach first)
          q.producers refl (omega (arith, at)) (omega (arith, v.numbered)) in
      (t, ap (λ r. r >>= finish (fuel_for (length s.sent))) first ∙ done, quiet, sent, received)
