-- ===== src/EventPoller/Registered.antt =====
-- What `Execute` does after a list of calls of `Add`, against the calls alone.
use mathlib.Core.List.{foldl}
use mathlib.Core.Path.{fun_ext}
use poc_event_manager.Prelude.{
  ◌≡◌, refl, ap, ◌∙◌, ◌&&◌, not, Option, none, some, ◌>>=◌, List, [], ◌∷◌, ℤ, pos, ◌==ℤ◌, minus_one,
  if◌then◌else◌, lookup, int_eq, arith,
}
use poc_event_manager.EventPoller.Defs.{
  EventPoller, Objects, construct, add, consume_all, execute, execute_all, execute_pair,
}
use poc_event_manager.EventPoller.Watching.{lookup-add}

-- The arguments of one call of `Add`, and what epoll_ctl returns for it.
pub record Added (P C : Type 0) : Type 0 where
  pub ctl : ℤ
  pub fd : ℤ
  pub producer : P
  pub consumer : C

abbrev or_else : {A : Type 0} → Option A → Option A → Option A
or_else none b = b
or_else (some a) b = some a

or_else_assoc : {A : Type 0} (a b c : Option A) → or_else a (or_else b c) ≡ or_else (or_else a b) c
or_else_assoc none b c = refl
or_else_assoc (some x) b c = refl

or_else-none : {A : Type 0} (a : Option A) → or_else a none ≡ a
or_else-none none = refl
or_else-none (some x) = refl

module _ {P C : Type 0} where
  unfoldable pub add_all : List (Added P C) → EventPoller P C → EventPoller P C
  add_all [] poller = poller
  add_all (r ∷ rs) poller = add_all rs (add r.ctl r.fd r.producer r.consumer poller).1

  -- The pair of a call that was accepted for this descriptor.
  abbrev pub added_for : ℤ → Added P C → Option (P × C)
  added_for j r =
      if not (r.fd ==ℤ minus_one) && (r.ctl ==ℤ pos 0) && (r.fd ==ℤ j)
      then some (r.producer, r.consumer)
      else none

  -- The last such call counts.
  unfoldable pub last_added : List (Added P C) → ℤ → Option (P × C)
  last_added [] j = none
  last_added (r ∷ rs) j = or_else (last_added rs j) (added_for j r)

  lookup-added :
      (j : ℤ) (r : Added P C) (poller : EventPoller P C)
      → lookup j (add r.ctl r.fd r.producer r.consumer poller).1.watchers
        ≡ or_else (added_for j r) (lookup j poller.watchers)
  lookup-added j r poller = ground (arith, (lookup-add r.ctl r.fd j r.producer r.consumer poller).1)

  lookup-add_all :
      (j : ℤ) (rs : List (Added P C)) (poller : EventPoller P C)
      → lookup j (add_all rs poller).watchers ≡ or_else (last_added rs j) (lookup j poller.watchers)
  unfolding add_all last_added
  lookup-add_all j [] poller = refl
  lookup-add_all j (r ∷ rs) poller =
      lookup-add_all j rs (add r.ctl r.fd r.producer r.consumer poller).1
      ∙ ap (or_else (last_added rs j)) (lookup-added j r poller)
      ∙ or_else_assoc (last_added rs j) (added_for j r) (lookup j poller.watchers)

module _ {P C E S : Type 0} (ops : Objects P C E S) where
  -- One report, given the pair that it is for: where both objects are alive, what the producer
  -- makes is consumed, the first event first.
  unfoldable pub serve : Option (P × C) → S → Option S
  serve none s = some s
  serve (some (p, c)) s =
      if not (ops.lock_producer p s)
      then some s
      else if not (ops.lock_consumer c s)
      then some s
      else ops.produce p s >>= (λ r. some (foldl (λ t e. ops.consume c e t) r.1 r.0))

  unfoldable pub serve_all : (ℤ → Option (P × C)) → List ℤ → S → Option S
  serve_all registered [] s = some s
  serve_all registered (fd ∷ fds) s = serve (registered fd) s >>= serve_all registered fds

  consume_all-foldl :
      (c : C) (es : List E) (s : S) → consume_all ops c es s ≡ foldl (λ t e. ops.consume c e t) s es
  unfolding consume_all
  consume_all-foldl c [] s = refl
  consume_all-foldl c (e ∷ es) s = consume_all-foldl c es (ops.consume c e s)

  execute_pair-serve : (p : P) (c : C) (s : S) → execute_pair ops p c s ≡ serve (some (p, c)) s
  unfolding execute_pair serve
  execute_pair-serve p c s = ground (
    arith,
    ap (λ k. ops.produce p s >>= k) (fun_ext (λ r. ap (λ u. some u) (consume_all-foldl c r.0 r.1))),
  )

  execute_found :
      (found : Option (P × C)) (s : S)
      → (elim found [ none ↦ some s | some (p, c) ↦ execute_pair ops p c s ]) ≡ serve found s
  unfolding serve
  execute_found none s = refl
  execute_found (some (p, c)) s = execute_pair-serve p c s

  execute-serve :
      (poller : EventPoller P C) (fd : ℤ) (s : S)
      → execute ops poller fd s ≡ serve (lookup fd poller.watchers) s
  unfolding execute
  execute-serve poller fd s = execute_found (lookup fd poller.watchers) s

  execute_all-serve_all :
      (poller : EventPoller P C) (fds : List ℤ) (s : S)
      → execute_all ops poller fds s ≡ serve_all (λ fd. lookup fd poller.watchers) fds s
  unfolding execute_all serve_all
  execute_all-serve_all poller [] s = refl
  execute_all-serve_all poller (fd ∷ fds) s =
      ap (λ r. r >>= execute_all ops poller fds) (execute-serve poller fd s)
      ∙ ap (λ k. serve (lookup fd poller.watchers) s >>= k)
          (fun_ext (execute_all-serve_all poller fds))

  -- After any calls of Add on a new poller, with whatever epoll_ctl returned for each: the main
  -- loop does for every list of reports what the calls alone say. A report is served by the pair of
  -- the last call for its descriptor that epoll_ctl accepted, and by none for descriptor -1; where
  -- both objects are alive, Consume gets each event that Produce returned, in order.
  pub execute_all-add_all :
      (created : ℤ) (new : EventPoller P C) (rs : List (Added P C)) (fds : List ℤ) (s : S)
      → construct created ≡ some new
      → execute_all ops (add_all rs new) fds s ≡ serve_all (last_added rs) fds s
  unfolding construct lookup
  execute_all-add_all created new rs fds s h =
      let fresh : new.watchers ≡ [] = ground arith in
      execute_all-serve_all (add_all rs new) fds s
      ∙ ap (λ g. serve_all g fds s)
          (fun_ext (λ j.
            lookup-add_all j rs new
            ∙ ap (λ w. or_else (last_added rs j) (lookup j w)) fresh
            ∙ or_else-none (last_added rs j)))
