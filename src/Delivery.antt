-- ===== src/Delivery.antt =====
-- What a queue between a thread and a consumer promises, event by event, with the three counters of a
-- manager (inc/IManager.h).
use mathlib.Core.List.{Sublist, Sublistᴰ}
use mathlib.Core.Logic.{∥∥₁_map, ∥∥₁_elim}
use poc_event_manager.Prelude.{
  ◌+◌, ◌≤◌, ◌≡◌, refl, sym, subst, List, [], ◌∷◌, ◌++◌, arith, length, length-append, append_assoc,
}
use poc_event_manager.Counters.{
  Counters, zero_counters, increment_rx, increment_tx, increment_dropped,
}

-- `offered` are the events that the thread made, `consumed` those that Consume was called with, and
-- `queued` those that wait, all oldest first. An event that was not queued was counted as dropped.
pub record IsDelivered {ℓ} {E : Type ℓ} (offered consumed queued : List E) (counters : Counters)
    : Type ℓ where
  pub order : Sublist (consumed ++ queued) offered
  pub sent : counters.tx ≡ length consumed + length queued
  pub received : counters.rx ≡ length consumed
  pub accounted : counters.tx + counters.dropped ≡ length offered

-- Nothing was dropped, and everything that was made was consumed or waits, in the order in which it
-- was made.
pub record IsComplete {ℓ} {E : Type ℓ} (offered consumed queued : List E) (counters : Counters)
    : Type ℓ where
  pub order : consumed ++ queued ≡ offered
  pub sent : counters.tx ≡ length consumed + length queued
  pub received : counters.rx ≡ length consumed
  pub undropped : counters.dropped ≡ 0

module _ {ℓ} {E : Type ℓ} where
  snoc-Sublistᴰ : (x : E) {xs ys : List E} → Sublistᴰ xs ys → Sublistᴰ (xs ++ x ∷ []) (ys ++ x ∷ [])
  snoc-Sublistᴰ x Sublistᴰ.slnil = Sublistᴰ.cons-cons refl Sublistᴰ.slnil
  snoc-Sublistᴰ x (Sublistᴰ.cons s) = Sublistᴰ.cons (snoc-Sublistᴰ x s)
  snoc-Sublistᴰ x (Sublistᴰ.cons-cons e s) = Sublistᴰ.cons-cons e (snoc-Sublistᴰ x s)

  skip-Sublistᴰ : (x : E) {xs ys : List E} → Sublistᴰ xs ys → Sublistᴰ xs (ys ++ x ∷ [])
  skip-Sublistᴰ x Sublistᴰ.slnil = Sublistᴰ.cons Sublistᴰ.slnil
  skip-Sublistᴰ x (Sublistᴰ.cons s) = Sublistᴰ.cons (skip-Sublistᴰ x s)
  skip-Sublistᴰ x (Sublistᴰ.cons-cons e s) = Sublistᴰ.cons-cons e (skip-Sublistᴰ x s)

  length-le : {xs ys : List E} → Sublistᴰ xs ys → length xs ≤ length ys
  length-le Sublistᴰ.slnil = omega arith
  length-le (Sublistᴰ.cons s) = omega (arith, length-le s)
  length-le (Sublistᴰ.cons-cons e s) = omega (arith, length-le s)

  pub begin-IsDelivered : IsDelivered {E = E} [] [] [] zero_counters
  begin-IsDelivered = record {
    order = ∣ Sublistᴰ.slnil ∣₁;
    sent = refl;
    received = refl;
    accounted = refl;
  }

  pub send-IsDelivered :
      (x : E) (offered consumed queued : List E) (c : Counters)
      → IsDelivered offered consumed queued c
      → IsDelivered (offered ++ x ∷ []) consumed (queued ++ x ∷ []) (increment_tx c)
  send-IsDelivered x offered consumed queued c d = record {
    order =
        subst (λ l. Sublist l (offered ++ x ∷ [])) (append_assoc consumed queued (x ∷ []))
          (∥∥₁_map d.order (snoc-Sublistᴰ x));
    sent = omega (arith, d.sent, length-append queued (x ∷ []));
    received = d.received;
    accounted = omega (arith, d.accounted, length-append offered (x ∷ []));
  }

  pub drop-IsDelivered :
      (x : E) (offered consumed queued : List E) (c : Counters)
      → IsDelivered offered consumed queued c
      → IsDelivered (offered ++ x ∷ []) consumed queued (increment_dropped c)
  drop-IsDelivered x offered consumed queued c d = record {
    order = ∥∥₁_map d.order (skip-Sublistᴰ x);
    sent = d.sent;
    received = d.received;
    accounted = omega (arith, d.accounted, length-append offered (x ∷ []));
  }

  pub consume-IsDelivered :
      (x : E) (offered consumed queued : List E) (c : Counters)
      → IsDelivered offered consumed (x ∷ queued) c
      → IsDelivered offered (consumed ++ x ∷ []) queued (increment_rx c)
  consume-IsDelivered x offered consumed queued c d = record {
    order = subst (λ l. Sublist l offered) (sym (append_assoc consumed (x ∷ []) queued)) d.order;
    sent = omega (arith, d.sent, length-append consumed (x ∷ []));
    received = omega (arith, d.received, length-append consumed (x ∷ []));
    accounted = d.accounted;
  }

  eq_of_length : {xs ys : List E} → Sublistᴰ xs ys → length ys ≤ length xs → xs ≡ ys
  eq_of_length Sublistᴰ.slnil h = refl
  eq_of_length (Sublistᴰ.cons s) h = absurd (omega (arith, length-le s, h))
  eq_of_length (Sublistᴰ.cons-cons e s) h = cc (e, eq_of_length s (omega (arith, h)))

  -- Where nothing was dropped, everything that was made is there, in order.
  pub undropped-IsDelivered :
      {offered consumed queued : List E} {c : Counters}
      → IsSet E
      → IsDelivered offered consumed queued c
      → c.dropped ≡ 0
      → consumed ++ queued ≡ offered
  undropped-IsDelivered {consumed = consumed} {queued = queued} set d h =
      ∥∥₁_elim d.order (hlevel)
        (λ s. eq_of_length s (omega (arith, d.sent, d.accounted, h, length-append consumed queued)))

  pub undropped-IsComplete :
      {offered consumed queued : List E} {c : Counters}
      → IsSet E
      → IsDelivered offered consumed queued c
      → c.dropped ≡ 0
      → IsComplete offered consumed queued c
  undropped-IsComplete set d h = record {
    order = undropped-IsDelivered set d h;
    sent = d.sent;
    received = d.received;
    undropped = h;
  }
