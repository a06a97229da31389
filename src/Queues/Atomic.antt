-- ===== src/Queues/Atomic.antt =====
-- atomic_queue::AtomicQueueB2, as app10.cpp uses it.
use poc_event_manager.Prelude.{
  ℕ, Bool, true, false, ◌≡◌, Option, none, some, List, [], ◌∷◌, ◌++◌, if◌then◌else◌, ◌>>=◌,
}
use poc_event_manager.Queues.Drain.{Round, TakesFront}

pub record AtomicQueue (E Q : Type 0) : Type 0 where
  pub make : ℕ → Q  -- the constructor, with the capacity
  pub try_push : E → Q → Bool × Q
  pub was_empty : Q → Bool
  pub pop : Q → Option (E × Q)  -- `none`: it spins, on an empty queue
  pub contents : Q → List E
  pub make_empty : (n : ℕ) → contents (make n) ≡ []
  pub try_push_back :
      (x : E) (q : Q)
      → contents (try_push x q).1 ≡ (if (try_push x q).0 then contents q ++ x ∷ [] else contents q)
  pub was_empty_empty : (q : Q) → contents q ≡ [] → was_empty q ≡ true
  pub was_empty_cons : (q : Q) (x : E) (xs : List E) → contents q ≡ x ∷ xs → was_empty q ≡ false
  pub pop_front :
      (q : Q) (x : E) (xs : List E)
      → contents q ≡ x ∷ xs
      → (rest : Q) × (pop q ≡ some (x, rest)) × (contents rest ≡ xs)

module _ {E Q : Type 0} (lib : AtomicQueue E Q) where
  open lib use {was_empty, pop, contents, was_empty_empty, was_empty_cons, pop_front}

  -- `while (txQueue.was_empty() == false) { events.emplace_back(std::move(txQueue.pop())); }`
  abbrev pub pop_round : Round E Q
  pop_round q = if was_empty q then some none else (pop q >>= (λ r. some (some r)))

  pub pop_round-TakesFront : TakesFront contents pop_round
  pop_round-TakesFront = record {
    at_end = λ q e. rw (was_empty_empty q e);
    takes = λ q x xs e.
        let (rest, h, k) = pop_front q x xs e in (rest, rw (was_empty_cons q x xs e, h), k);
  }
