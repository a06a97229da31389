-- ===== src/Tests/Queues.antt =====
-- The queue interfaces can be met: by a list that takes two elements and refuses a third.
use poc_event_manager.Prelude.{
  ◌≡◌, refl, Bool, true, false, Option, none, some, List, [], ◌∷◌, ◌++◌, if◌then◌else◌, ltb, length,
  arith,
}
use poc_event_manager.Queues.ReaderWriter.{ReaderWriterQueue}
use poc_event_manager.Queues.Atomic.{AtomicQueue}
use poc_event_manager.Queues.Spsc.{SpscQueue}

module _ {E : Type 0} where
  abbrev push : E → List E → Bool × List E
  push x q = if ltb (length q) 2 then (true, q ++ x ∷ []) else (false, q)

  pub push_back : (x : E) (q : List E) → (push x q).1 ≡ (if (push x q).0 then q ++ x ∷ [] else q)
  push_back x q = ground arith

  abbrev uncons : List E → Option (E × List E)
  uncons [] = none
  uncons (x ∷ xs) = some (x, xs)

  pub uncons_cons :
      (q : List E) (x : E) (xs : List E)
      → q ≡ x ∷ xs
      → (rest : List E) × (uncons q ≡ some (x, rest)) × (rest ≡ xs)
  uncons_cons q x xs e = (xs, rw e, refl)

  abbrev is_nil : List E → Bool
  is_nil [] = true
  is_nil (x ∷ xs) = false

  abbrev head : List E → Option E
  head [] = none
  head (x ∷ xs) = some x

  abbrev rest_of : List E → List E
  rest_of [] = []
  rest_of (x ∷ xs) = xs

  abbrev pub reader_writer_list : ReaderWriterQueue E (List E)
  reader_writer_list = record {
    make = λ n. [];
    enqueue = push;
    try_dequeue = uncons;
    contents = λ q. q;
    make_empty = λ n. refl;
    enqueue_back = push_back;
    dequeue_empty = λ q e. rw e;
    dequeue_front = uncons_cons;
  }

  abbrev pub atomic_list : AtomicQueue E (List E)
  atomic_list = record {
    make = λ n. [];
    try_push = push;
    was_empty = is_nil;
    pop = uncons;
    contents = λ q. q;
    make_empty = λ n. refl;
    try_push_back = push_back;
    was_empty_empty = λ q e. rw e;
    was_empty_cons = λ q x xs e. rw e;
    pop_front = uncons_cons;
  }

  abbrev pub spsc_list : SpscQueue E (List E)
  spsc_list = record {
    make = λ n. [];
    try_emplace = push;
    is_empty = is_nil;
    front = head;
    pop = rest_of;
    contents = λ q. q;
    make_empty = λ n. refl;
    try_emplace_back = push_back;
    is_empty_empty = λ q e. rw e;
    is_empty_cons = λ q x xs e. rw e;
    front_first = λ q x xs e. rw e;
    pop_first = λ q x xs e. rw e;
  }
