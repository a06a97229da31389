-- ===== src/Queues/Drain.antt =====
-- A loop that empties a queue into a list, over one round of it.
use poc_event_manager.Prelude.{
  ℕ, zero, suc, ◌<◌, ◌≡◌, ◌∙◌, Option, none, some, List, [], ◌∷◌, ◌++◌, append-nil, append_assoc,
  length, arith, ap, ◌>>=◌,
}

-- A round of a loop: it faults, or the test ends the loop, or the body takes an element.
abbrev pub Round : Type 0 → Type 0 → Type 0
Round E Q = Q → Option (Option (E × Q))

module _ {E Q : Type 0} where
  -- The loop with fuel, after `events` were taken; `none` also where the fuel runs out.
  unfoldable pub drain : Round E Q → ℕ → Q → List E → Option (List E × Q)
  drain next zero q events = none
  drain next (suc fuel) q events = next q >>= elim [
    | none ↦ some (events, q)
    | some (x, rest) ↦ drain next fuel rest (events ++ x ∷ [])
  ]

  -- What the round does to a queue with known contents.
  pub record TakesFront (contents : Q → List E) (next : Round E Q) : Type 0 where
    pub at_end : (q : Q) → contents q ≡ [] → next q ≡ some none
    pub takes :
        (q : Q) (x : E) (xs : List E)
        → contents q ≡ x ∷ xs
        → (rest : Q) × (next q ≡ some (some (x, rest))) × (contents rest ≡ xs)

  -- Over a round that takes the front of the queue or finds it empty, and with more fuel than
  -- elements, the loop ends with no fault: the list is what it was, then all elements in order, and
  -- the queue is empty.
  pub drain-takes_all :
      (contents : Q → List E) (next : Round E Q)
      → TakesFront contents next
      → (fuel : ℕ) (xs : List E) (q : Q) (events : List E) → contents q ≡ xs
      → length xs < fuel
      → (q' : Q) × (drain next fuel q events ≡ some (events ++ xs, q')) × (contents q' ≡ [])
  unfolding drain
  drain-takes_all contents next t zero xs q events e h = absurd (omega arith)
  drain-takes_all contents next t (suc fuel) [] q events e h = (q, rw (t.at_end q e, append-nil), e)
  drain-takes_all contents next t (suc fuel) (x ∷ xs) q events e h =
      let (rest, taken, left) = t.takes q x xs e in
      let (q', more, empty) =
        drain-takes_all contents next t fuel xs rest (events ++ x ∷ []) left (omega arith) in
      (
        q',
        rw taken (more ∙ ap (λ (l : List E). some (l, q')) (append_assoc events (x ∷ []) xs)),
        empty,
      )
