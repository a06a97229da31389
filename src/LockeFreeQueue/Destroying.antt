-- ===== src/LockeFreeQueue/Destroying.antt =====
-- The destructor of inc/LockeFreeQueue.h, with nobody inside the queue.
use poc_event_manager.Prelude.{
  ℕ, zero, suc, ◌+◌, ◌-◌, ◌≤◌, ◌<◌, ◌≡◌, refl, true, false, Option, none, some, length,
  if◌then◌else◌, update, arith, ◌∙◌, ap, inl, inr, Option-cases, Bool-cases,
}
use poc_event_manager.LockeFreeQueue.Defs.{State}
use poc_event_manager.LockeFreeQueue.Producing.{unlinked_tail}
use poc_event_manager.LockeFreeQueue.Correct.{Reach-IsLinked}
use poc_event_manager.LockeFreeQueue.Calls.{IsQuiet}

module _ {T : Type 0} where
  abbrev delete : ℕ → State T → State T
  delete n s = record s { live = update s.live n false }

  -- The loop, with fuel; a second deletion of a node is a fault.
  unfoldable pub delete_from : ℕ → Option ℕ → State T → Option (State T)
  delete_from zero _ s = none
  delete_from (suc fuel) none s = some s
  delete_from (suc fuel) (some n) s =
      let rest = delete_from fuel (s.next n) (delete n s) in if s.live n then rest else none

  unfoldable pub destroy : State T → Option (State T)
  destroy s = delete_from (suc (suc (length s.sent))) (some s.head) s

  -- The nodes from `cur` to the tail are alive, no other is, and they are all linked.
  record IsChain (cur : ℕ) (s : State T) : Type 0 where
    alive : (k : ℕ) → cur ≤ k → k ≤ s.tail → s.live k ≡ true
    allocated : (k : ℕ) → s.live k ≡ true → (cur ≤ k) × (k ≤ s.tail)
    links : (k : ℕ) → k < s.tail → cur ≤ k → s.next k ≡ some (suc k)
    ends : s.next s.tail ≡ none

  delete-IsChain : (cur : ℕ) (s : State T) → IsChain cur s → IsChain (suc cur) (delete cur s)
  delete-IsChain cur s c = record {
    alive = λ k a b. ground (arith, c.alive k);
    allocated = λ k a. ground (arith, c.allocated k);
    links = λ k a b. c.links k a (omega (arith, b));
    ends = c.ends;
  }

  dead : (k cur : ℕ) (s : State T) → IsChain cur s → s.tail < cur → s.live k ≡ false
  dead k cur s c past = elim (Bool-cases (s.live k)) [
    | inl e ↦ absurd (omega (arith, c.allocated k e, past))
    | inr e ↦ e
  ]

  chain_lem :
      (n left cur : ℕ) (s : State T)
      → IsChain cur s
      → cur + left ≡ s.tail
      → left ≤ n
      → (t : State T) × (delete_from (suc (suc n)) (some cur) s ≡ some t)
        × ((k : ℕ) → t.live k ≡ false)
  unfolding delete_from
  chain_lem n zero cur s c e b =
      let last : s.next cur ≡ none = ap s.next (omega (arith, e)) ∙ c.ends in
      (
        delete cur s,
        rw (c.alive cur (omega arith) (omega (arith, e)), last) refl,
        λ k. dead k (suc cur) (delete cur s) (delete-IsChain cur s c) (omega (arith, e)),
      )
  chain_lem zero (suc left) cur s c e b = absurd (omega (arith, b))
  chain_lem (suc n) (suc left) cur s c e b =
      let (t, done, gone) =
        chain_lem n left (suc cur) (delete cur s) (delete-IsChain cur s c) (omega (arith, e))
          (omega (arith, b)) in
      (
        t,
        rw
            (
              c.alive cur (omega arith) (omega (arith, e)),
              c.links cur (omega (arith, e)) (omega arith),
            )
            done,
        gone,
      )

  IsQuiet-IsChain : (s : State T) → IsQuiet s → IsChain s.head s
  IsQuiet-IsChain s q =
      let v = Reach-IsLinked q.reach in
      record {
        alive = λ k a b. ground (arith, q.consumer_out, v.alive k);
        allocated = λ k a. ground (arith, q.consumer_out, v.allocated k);
        links = λ k a b. elim (Option-cases (s.next k)) [
          | inl e ↦ let (i, owed) = v.owed k a e in absurd (cc (owed, q.producers i))
          | inr (n, e) ↦ e ∙ ap some (v.ascending k n e).0
        ];
        ends = unlinked_tail s v;
      }

  -- The destructor of a queue in which nobody is inside ends with no fault, deletes each node once,
  -- and leaves no node: nothing leaks.
  pub destroy-frees_all :
      (s : State T)
      → IsQuiet s
      → (t : State T) × (destroy s ≡ some t) × ((k : ℕ) → t.live k ≡ false)
  unfolding destroy
  destroy-frees_all s q =
      let v = Reach-IsLinked q.reach in
      let at : s.head ≤ s.tail = ground (arith, q.consumer_out, v.within) in
      chain_lem (length s.sent) (s.tail - s.head) s.head s (IsQuiet-IsChain s q) (omega (arith, at))
        (omega (arith, v.numbered))
