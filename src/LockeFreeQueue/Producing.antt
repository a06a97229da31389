-- ===== src/LockeFreeQueue/Producing.antt =====
-- The steps of `emplace_back`, and the shape of the list.
use poc_event_manager.Prelude.{
  ℕ, ◌≡◌, ◌≢◌, refl, Option, none, some, [], ◌∷◌, length, take-append, get_elem?-snoc,
  length-append, update, arith, ◌∙◌, sym, inl, inr, Option-cases, Bool-cases, ltb,
}
use poc_event_manager.LockeFreeQueue.Defs.{
  ProducerPc, idle, linking, ConsumerPc, resting, loading, testing, taking, State, exchange, link,
  producer_step,
}
use poc_event_manager.LockeFreeQueue.Invariant.{IsLinked, IsLoaded}

IsLoaded-update :
    (next : ℕ → Option ℕ) (pc : ConsumerPc) (p : ℕ) (o : Option ℕ)
    → ((cur n : ℕ) → next cur ≡ some n → cur ≢ p)
    → IsLoaded next pc
    → IsLoaded (update next p o) pc
IsLoaded-update next resting p o h l = tt
IsLoaded-update next (loading cur) p o h l = tt
IsLoaded-update next (testing cur none) p o h l = tt
IsLoaded-update next (testing cur (some n)) p o h l = ground (arith, h cur n l)
IsLoaded-update next (taking cur) p o h l = tt

module _ {ℓ} {T : Type ℓ} where
  pub unlinked_tail : (s : State T) → IsLinked s → s.next s.tail ≡ none
  unlinked_tail s v = elim (Option-cases (s.next s.tail)) [
    | inl e ↦ e
    | inr (j, e) ↦ absurd (omega (arith, (v.ascending s.tail j e).1))
  ]

  exchange-IsLinked :
      (i : ℕ) (x : T) (s : State T)
      → s.producer_pc i ≡ idle
      → IsLinked s
      → IsLinked (exchange i x s)
  exchange-IsLinked i x s h v = record {
    last = refl;
    numbered = omega (arith, v.last, v.numbered, length-append s.sent (x ∷ []));
    within = omega (arith, v.last, v.within);
    alive = λ k a b. ground (arith, v.last, v.alive k a);
    allocated = λ k a. ground (arith, v.last, v.within, v.allocated k);
    ascending = λ k j e. ground (arith, v.last, v.ascending k j);
    pending = λ j n p e. ground (arith, v.last, v.within, v.pending j n p, unlinked_tail s v);
    apart = λ j k n p m a b.
        ground (arith, v.last, v.pending j n p, v.pending k m p, v.apart j k n p m);
    owed = λ k b e. elim (Bool-cases (ltb k s.tail)) [
      | inl old ↦
          let (j, q) = v.owed k (ground (arith, old)) (ground (arith, v.last, e)) in
          (j, ground (arith, q, h))
      | inr new ↦ (i, ground (arith, v.last))
    ];
    loaded =
        IsLoaded-update s.next s.consumer_pc s.fresh none
          (λ c m e. ground (arith, v.last, v.ascending c m e)) v.loaded;
    counted = v.counted;
    prefix =
        v.prefix
        ∙ sym (
            take-append (length s.received) s.sent (x ∷ [])
              (omega (arith, v.counted, v.within, v.numbered)));
    stored = λ k a b. ground (arith, v.last, v.numbered, get_elem?-snoc s.sent x k, v.stored k a);
  }

  link-IsLinked :
      (i n p : ℕ) (s : State T)
      → s.producer_pc i ≡ linking n p
      → IsLinked s
      → IsLinked (link i n p s)
  link-IsLinked i n p s h v = record {
    last = v.last;
    numbered = v.numbered;
    within = v.within;
    alive = v.alive;
    allocated = v.allocated;
    ascending = λ k j e. ground (arith, v.pending i n p h, v.ascending k j);
    pending = λ j m q e. ground (arith, v.pending j m q, v.apart i j n p m h);
    apart = λ j k m q o a b. ground (arith, v.apart j k m q o);
    owed = λ k b e. let (j, q) = v.owed k b (ground (arith, e)) in (j, ground (arith, q, h, e));
    loaded =
        IsLoaded-update s.next s.consumer_pc p (some n) (λ c m e. ground (arith, v.pending i n p h))
          v.loaded;
    counted = v.counted;
    prefix = v.prefix;
    stored = v.stored;
  }

  pub producer-IsLinked :
      (pc : ProducerPc) (i : ℕ) (x : T) (s : State T)
      → s.producer_pc i ≡ pc
      → IsLinked s
      → (t : State T) × (producer_step pc i x s ≡ some t) × IsLinked t
  unfolding producer_step
  producer-IsLinked idle i x s h v = (exchange i x s, refl, exchange-IsLinked i x s h v)
  producer-IsLinked (linking n p) i x s h v =
      let (_, below, at, _) = v.pending i n p h in
      (link i n p s, rw (v.alive p at (omega arith)), link-IsLinked i n p s h v)
