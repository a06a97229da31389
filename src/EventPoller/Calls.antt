-- ===== src/EventPoller/Calls.antt =====
-- Execute of inc/EventPoller.h, call by call: Produce, and then a call of Consume for each event.
use poc_event_manager.Prelude.{
  Option, none, some, ◌>>=◌, ◌&&◌, List, [], ◌∷◌, map, ℤ, ◌≡◌, refl, if◌then◌else◌, lookup, int_eq,
  Option-cases, Bool-cases, inl, inr,
}
use poc_event_manager.EventPoller.Defs.{Objects, EventPoller, consume_all, execute, execute_pair}
use poc_event_manager.Loop.Defs.{deliver_all}

module _ {P C E S : Type 0} (ops : Objects P C E S) where
  -- Execute up to the first call of Consume: the calls that it will make.
  unfoldable pub take_pair : P → C → S → Option (List (C × E) × S)
  take_pair p c s =
      if ops.lock_producer p s && ops.lock_consumer c s
      then ops.produce p s >>= (λ r. some (map (λ e. (c, e)) r.0, r.1))
      else some ([], s)

  unfoldable pub take_events : EventPoller P C → ℤ → S → Option (List (C × E) × S)
  unfolding take_pair
  take_events poller fd s = elim (lookup fd poller.watchers) [
    | none ↦ some ([], s)
    | some (p, c) ↦ take_pair p c s
  ]

  abbrev pub hand_over : C × E → S → S
  hand_over d s = ops.consume d.0 d.1 s

  deliver_all-map :
      (c : C) (es : List E) (s : S)
      → deliver_all hand_over (map (λ e. (c, e)) es) s ≡ consume_all ops c es s
  unfolding deliver_all consume_all
  deliver_all-map c [] s = refl
  deliver_all-map c (e ∷ es) s = deliver_all-map c es (ops.consume c e s)

  take_pair_lem :
      (p : P) (c : C) (s : S)
      → (take_pair p c s >>= (λ r. some (deliver_all hand_over r.0 r.1))) ≡ execute_pair ops p c s
  unfolding take_pair execute_pair deliver_all
  take_pair_lem p c s = elim (Bool-cases (ops.lock_producer p s && ops.lock_consumer c s)) [
    | inl e ↦ elim (Option-cases (ops.produce p s)) [
      | inl f ↦ rw (e, f) refl
      | inr ((es, s'), f) ↦ rw (e, f, deliver_all-map c es s') refl
    ]
    | inr e ↦ rw e refl
  ]

  -- That, and then the calls of Consume one after the other, is Execute.
  take_events-execute :
      (poller : EventPoller P C) (fd : ℤ) (s : S)
      → (take_events poller fd s >>= (λ r. some (deliver_all hand_over r.0 r.1)))
        ≡ execute ops poller fd s
  unfolding take_events execute deliver_all
  take_events-execute poller fd s = elim (Option-cases (lookup fd poller.watchers)) [
    | inl e ↦ rw (e, take_events, execute) refl
    | inr ((p, c), e) ↦ rw (e, take_events, execute) (take_pair_lem p c s)
  ]
