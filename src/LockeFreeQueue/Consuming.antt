-- ===== src/LockeFreeQueue/Consuming.antt =====
-- The steps of `swap`, and the shape of the list.
use poc_event_manager.Prelude.{
  ℕ, suc, ◌+◌, ◌<◌, ◌≡◌, refl, false, Option, none, some, List, [], ◌∷◌, ◌++◌, length, get_elem?,
  take, take-suc, get_elem?_total, length-append, update, arith, ◌∙◌, sym, ap, subst,
}
use poc_event_manager.LockeFreeQueue.Defs.{
  ConsumerPc, resting, loading, testing, taking, State, move, consumer_step,
}
use poc_event_manager.LockeFreeQueue.Invariant.{IsLinked, IsLoaded, position, is_taking, pos_of}

IsLoaded-self :
    (next : ℕ → Option ℕ) (cur : ℕ) (o : Option ℕ) → next cur ≡ o → IsLoaded next (testing cur o)
IsLoaded-self next cur none e = tt
IsLoaded-self next cur (some n) e = e

module _ {ℓ} {T : Type ℓ} where
  -- A step that changes neither the memory nor the position.
  repositioned :
      (s : State T) (pc : ConsumerPc) (head : ℕ)
      → position pc head ≡ pos_of s
      → is_taking pc ≡ is_taking s.consumer_pc
      → IsLoaded s.next pc
      → IsLinked s
      → IsLinked (record s { head = head; consumer_pc = pc })
  repositioned s pc head same same_count l v = record {
    last = v.last;
    numbered = v.numbered;
    within = omega (arith, same, v.within);
    alive = λ k a b. v.alive k (omega (arith, same, a)) b;
    allocated = λ k a. ground (arith, same, v.allocated k a);
    ascending = v.ascending;
    pending = λ i n p e. ground (arith, same, v.pending i n p e);
    apart = v.apart;
    owed = v.owed;
    loaded = l;
    counted = omega (arith, same, same_count, v.counted);
    prefix = v.prefix;
    stored = v.stored;
  }

  abbrev deleted : ℕ → ℕ → State T → State T
  deleted cur n s = record s { live = update s.live cur false; consumer_pc = taking n }

  delete-IsLinked :
      (cur n : ℕ) (s : State T)
      → s.consumer_pc ≡ testing cur (some n)
      → IsLinked s
      → IsLinked (deleted cur n s)
  delete-IsLinked cur n s h v =
      let linked : s.next cur ≡ some n = ground (arith, v.loaded, h) in
      let (after, below) = v.ascending cur n linked in
      record {
        last = v.last;
        numbered = v.numbered;
        within = omega (arith, after, below);
        alive = λ k a b. ground (arith, h, after, v.alive k);
        allocated = λ k a. ground (arith, h, after, v.allocated k);
        ascending = v.ascending;
        pending = λ i m p e. ground (arith, h, after, linked, v.pending i m p e);
        apart = v.apart;
        owed = v.owed;
        loaded = tt;
        counted = ground (arith, h, after, v.counted);
        prefix = v.prefix;
        stored = v.stored;
      }

  move-IsLinked :
      (cur : ℕ) (x : T) (s : State T)
      → s.consumer_pc ≡ taking cur
      → get_elem? s.sent (length s.received) ≡ some x
      → IsLinked s
      → IsLinked (move cur x s)
  move-IsLinked cur x s h e v =
      let longer = length-append s.received (x ∷ []) in
      let counted : length s.received + 1 ≡ cur = ground (arith, h, v.counted) in
      record {
        last = v.last;
        numbered = v.numbered;
        within = ground (arith, h, v.within);
        alive = λ k a b. ground (arith, h, v.alive k);
        allocated = λ k a. ground (arith, h, v.allocated k);
        ascending = v.ascending;
        pending = λ i m p q. ground (arith, h, v.pending i m p q);
        apart = v.apart;
        owed = v.owed;
        loaded = tt;
        counted = omega (arith, longer, counted);
        prefix =
            ap (λ (l : List T). l ++ x ∷ []) v.prefix
            ∙ sym (take-suc (length s.received) s.sent x e)
            ∙ ap (λ n. take n s.sent) {x = suc (length s.received)} (omega (arith, longer));
        stored = λ k a b. ground (arith, longer, counted, v.stored k);
      }

  -- What swap moves out is the next of what was appended.
  pub taking_lem :
      (cur : ℕ) (s : State T)
      → s.consumer_pc ≡ taking cur
      → IsLinked s
      → (x : T) × (get_elem? s.sent (length s.received) ≡ some x)
        × (consumer_step (taking cur) s ≡ some (move cur x s))
  unfolding consumer_step
  taking_lem cur s h v =
      let counted : length s.received + 1 ≡ cur = ground (arith, h, v.counted) in
      let below : length s.received < s.tail = ground (arith, h, counted, v.within) in
      let (x, e) = get_elem?_total s.sent (length s.received) (omega (arith, v.numbered, below)) in
      let full : s.payload cur ≡ some x =
        subst (λ k. s.payload k ≡ some x) (omega (arith, counted))
          (v.stored (length s.received) (omega arith) below ∙ e) in
      (x, e, rw (v.alive cur (ground (arith, h)) (ground (arith, h, v.within)), full) refl)

  pub consumer-IsLinked :
      (pc : ConsumerPc) (s : State T)
      → s.consumer_pc ≡ pc
      → IsLinked s
      → (t : State T) × (consumer_step pc s ≡ some t) × IsLinked t
  unfolding consumer_step
  consumer-IsLinked resting s h v =
      (_, refl, repositioned s (loading s.head) s.head (ground (arith, h)) (ground (arith, h)) tt v)
  consumer-IsLinked (loading cur) s h v = (
    record s { consumer_pc = testing cur (s.next cur) },
    rw (v.alive cur (ground (arith, h)) (ground (arith, h, v.within))),
    repositioned s (testing cur (s.next cur)) s.head (ground (arith, h)) (ground (arith, h))
        (IsLoaded-self s.next cur (s.next cur) refl) v,
  )
  consumer-IsLinked (testing cur none) s h v =
      (_, refl, repositioned s resting cur (ground (arith, h)) (ground (arith, h)) tt v)
  consumer-IsLinked (testing cur (some n)) s h v = (
    deleted cur n s,
    rw (v.alive cur (ground (arith, h)) (ground (arith, h, v.within))),
    delete-IsLinked cur n s h v,
  )
  consumer-IsLinked (taking cur) s h v =
      let (x, e, moved) = taking_lem cur s h v in (move cur x s, moved, move-IsLinked cur x s h e v)
