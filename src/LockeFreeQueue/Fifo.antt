-- ===== src/LockeFreeQueue/Fifo.antt =====
-- inc/LockeFreeQueue.h as a queue: what its threads do, at each access to memory, to the sequence of
-- objects that wait.
use poc_event_manager.Prelude.{
  ℕ, ◌≤◌, ◌≡◌, refl, update, false, Option, none, some, ◌>>=◌, List, [], ◌∷◌, ◌++◌, length, drop,
  drop-append, length-append, append_assoc, arith, ◌∙◌, sym, ap, subst, some-cancel, guard-eq-some,
  >>=-eq-some,
}
use poc_event_manager.LockeFreeQueue.Defs.{
  ProducerPc, idle, linking, ConsumerPc, resting, loading, testing, taking, Actor, producer,
  consumer, State, link, move, producer_step, consumer_step, step, Reach, later,
}
use poc_event_manager.LockeFreeQueue.Correct.{Reach-IsPrefix}

-- A queue, and what was taken from it, oldest first.
pub record Fifo {ℓ} (T : Type ℓ) : Type ℓ where
  pub waiting : List T
  pub taken : List T

pub data Operation {ℓ} (T : Type ℓ) : Type ℓ where
  push : T → Operation T
  pop : Operation T
  skip : Operation T

module _ {ℓ} {T : Type ℓ} where
  pop_front : List T → List T → Option (Fifo T)
  pop_front [] taken = none
  pop_front (x ∷ xs) taken = some (record { waiting = xs; taken = taken ++ x ∷ [] })

  -- `none`: there is nothing to take.
  unfoldable pub operate : Operation T → Fifo T → Option (Fifo T)
  unfolding pop_front
  operate (push x) q = some (record q { waiting = q.waiting ++ x ∷ [] })
  operate pop q = pop_front q.waiting q.taken
  operate skip q = some q

  produces : ProducerPc → T → Operation T
  produces idle x = push x
  produces (linking node prev) x = skip

  takes : ConsumerPc → Operation T
  takes (taking cur) = pop
  takes _ = skip

  -- The exchange of `tail_` appends, and the move of `data` takes; the other accesses do neither.
  unfoldable pub operation : Actor T → State T → Operation T
  unfolding produces takes
  operation (producer i x) s = produces (s.producer_pc i) x
  operation consumer s = takes s.consumer_pc

  abbrev pub view : State T → Fifo T
  view s = record { waiting = drop (length s.received) s.sent; taken = s.received }

  drop_left : (xs ys : List T) → drop (length xs) (xs ++ ys) ≡ ys
  drop_left [] ys = refl
  drop_left (x ∷ xs) ys = drop_left xs ys

  -- Taking the next of what was sent.
  pop-view :
      (sent received rest : List T) (x : T)
      → sent ≡ (received ++ x ∷ []) ++ rest
      → operate pop (record { waiting = drop (length received) sent; taken = received })
        ≡ some (record {
          waiting = drop (length (received ++ x ∷ [])) sent;
          taken = received ++ x ∷ [];
        })
  unfolding operate
  pop-view sent received rest x e =
      let front : drop (length received) sent ≡ x ∷ rest =
        ap (λ (l : List T). drop (length received) l) (e ∙ append_assoc received (x ∷ []) rest)
        ∙ drop_left received (x ∷ rest) in
      let left : drop (length (received ++ x ∷ [])) sent ≡ rest =
        ap (λ (l : List T). drop (length (received ++ x ∷ [])) l) e
        ∙ drop_left (received ++ x ∷ []) rest in
      rw (front, left) refl

  producer-refines :
      (pc : ProducerPc) (i : ℕ) (x : T) (s t : State T)
      → length s.received ≤ length s.sent
      → producer_step pc i x s ≡ some t
      → operate (produces pc x) (view s) ≡ some (view t)
  unfolding producer_step operate produces
  producer-refines idle i x s t b e = rw (sym (some-cancel e)) (
      ap (λ (l : List T). some (record { waiting = l; taken = s.received }))
        (sym (drop-append (length s.received) s.sent (x ∷ []) b)))
  producer-refines (linking node prev) i x s t b e =
      ap (λ k. some (view k))
        (some-cancel (guard-eq-some (s.live prev) (some (link i node prev s)) e).1)

  consumer-refines :
      (pc : ConsumerPc) (s t : State T) (rest : List T)
      → t.sent ≡ t.received ++ rest
      → consumer_step pc s ≡ some t
      → operate (takes pc) (view s) ≡ some (view t)
  unfolding consumer_step operate takes
  consumer-refines resting s t rest p e = ap (λ k. some (view k)) (some-cancel e)
  consumer-refines (loading cur) s t rest p e =
      ap (λ k. some (view k))
        (some-cancel
          (guard-eq-some (s.live cur) (some (record s { consumer_pc = testing cur (s.next cur) }))
            e).1)
  consumer-refines (testing cur none) s t rest p e = ap (λ k. some (view k)) (some-cancel e)
  consumer-refines (testing cur (some n)) s t rest p e =
      ap (λ k. some (view k))
        (some-cancel (
          (guard-eq-some (s.live cur)
            (some (record s { live = update s.live cur false; consumer_pc = taking n })) e).1))
  consumer-refines (taking cur) s t rest p e =
      let (x, at, same) =
        >>=-eq-some (s.payload cur) (λ x. some (move cur x s))
          (guard-eq-some (s.live cur) (s.payload cur >>= (λ x. some (move cur x s))) e).1 in
      let moved = some-cancel same in
      subst (λ k. operate pop (view s) ≡ some (view k)) moved
        (pop-view s.sent s.received rest x (subst (λ k. k.sent ≡ k.received ++ rest) (sym moved) p))

  -- In every state that any number of appending threads and one emptying thread can reach, each step
  -- does to the objects that wait what its operation does to a queue: the exchange in emplace_back
  -- appends one at the back, the move in swap takes the one at the front, and there is one, and no
  -- other access changes what waits or what was taken.
  pub step-refines :
      {s t : State T} (a : Actor T)
      → Reach s
      → step a s ≡ some t
      → operate (operation a s) (view s) ≡ some (view t)
  unfolding step operation
  step-refines {s} {t} (producer i x) r e =
      let (rest, p) = Reach-IsPrefix r in
      producer-refines (s.producer_pc i) i x s t
        (omega (arith, ap length p, length-append s.received rest)) e
  step-refines {s} {t} consumer r e =
      let (rest, p) = Reach-IsPrefix (later consumer r e) in
      consumer-refines s.consumer_pc s t rest p e
