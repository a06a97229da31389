-- ===== src/Queues/ReaderWriter.antt =====
-- moodycamel::ReaderWriterQueue, as app5.cpp uses it.
use poc_event_manager.Prelude.{ℕ, Bool, ◌≡◌, Option, none, some, List, [], ◌∷◌, ◌++◌, if◌then◌else◌}
use poc_event_manager.Queues.Drain.{Round, TakesFront}

pub record ReaderWriterQueue (E Q : Type 0) : Type 0 where
  pub make : ℕ → Q  -- the constructor, with the size hint
  pub enqueue : E → Q → Bool × Q
  pub try_dequeue : Q → Option (E × Q)  -- `none`: it returned false
  pub contents : Q → List E
  pub make_empty : (n : ℕ) → contents (make n) ≡ []
  -- An element goes to the back, or the call reports failure and changes nothing.
  pub enqueue_back :
      (x : E) (q : Q)
      → contents (enqueue x q).1 ≡ (if (enqueue x q).0 then contents q ++ x ∷ [] else contents q)
  pub dequeue_empty : (q : Q) → contents q ≡ [] → try_dequeue q ≡ none
  pub dequeue_front :
      (q : Q) (x : E) (xs : List E)
      → contents q ≡ x ∷ xs
      → (rest : Q) × (try_dequeue q ≡ some (x, rest)) × (contents rest ≡ xs)

module _ {E Q : Type 0} (lib : ReaderWriterQueue E Q) where
  open lib use {try_dequeue, contents, dequeue_empty, dequeue_front}

  -- `while (txQueue.try_dequeue(event)) { events.emplace_back(std::move(event)); }`
  abbrev pub dequeue_round : Round E Q
  dequeue_round q = some (try_dequeue q)

  pub dequeue_round-TakesFront : TakesFront contents dequeue_round
  dequeue_round-TakesFront = record {
    at_end = λ q e. rw (dequeue_empty q e);
    takes = λ q x xs e. let (rest, h, k) = dequeue_front q x xs e in (rest, rw h, k);
  }
