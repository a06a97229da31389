-- ===== src/Queues/Spsc.antt =====
-- rigtorp::SPSCQueue, as app11.cpp and app12.cpp use it.
use poc_event_manager.Prelude.{
  ℕ, Bool, true, false, ◌≡◌, Option, none, some, List, [], ◌∷◌, ◌++◌, if◌then◌else◌, ◌>>=◌,
}
use poc_event_manager.Queues.Drain.{Round, TakesFront}

pub record SpscQueue (E Q : Type 0) : Type 0 where
  pub make : ℕ → Q  -- the constructor, with the capacity
  pub try_emplace : E → Q → Bool × Q
  pub is_empty : Q → Bool  -- `empty`
  pub front : Q → Option E  -- `none`: the null pointer
  pub pop : Q → Q
  pub contents : Q → List E
  pub make_empty : (n : ℕ) → contents (make n) ≡ []
  pub try_emplace_back :
      (x : E) (q : Q)
      → contents (try_emplace x q).1
        ≡ (if (try_emplace x q).0 then contents q ++ x ∷ [] else contents q)
  pub is_empty_empty : (q : Q) → contents q ≡ [] → is_empty q ≡ true
  pub is_empty_cons : (q : Q) (x : E) (xs : List E) → contents q ≡ x ∷ xs → is_empty q ≡ false
  pub front_first : (q : Q) (x : E) (xs : List E) → contents q ≡ x ∷ xs → front q ≡ some x
  pub pop_first : (q : Q) (x : E) (xs : List E) → contents q ≡ x ∷ xs → contents (pop q) ≡ xs

module _ {E Q : Type 0} (lib : SpscQueue E Q) where
  open lib use {
    is_empty, front, pop, contents, is_empty_empty, is_empty_cons, front_first, pop_first,
  }

  -- `while (txQueue.empty() == false) { events.push_back(std::move(*txQueue.front()));
  -- txQueue.pop(); }` A null pointer from `front` would be a fault.
  abbrev pub front_round : Round E Q
  front_round q = if is_empty q then some none else (front q >>= (λ x. some (some (x, pop q))))

  pub front_round-TakesFront : TakesFront contents front_round
  front_round-TakesFront = record {
    at_end = λ q e. rw (is_empty_empty q e);
    takes =
        λ q x xs e. (pop q, rw (is_empty_cons q x xs e, front_first q x xs e), pop_first q x xs e);
  }
