-- ===== src/LockeFreeQueue/Invariant.antt =====
-- The shape of the list of inc/LockeFreeQueue.h: the nodes from the consumer's position to the tail
-- are to be alive and linked in order, except before a node whose producer is still to link it.
use poc_event_manager.Prelude.{
  ℕ, suc, ◌+◌, ◌≤◌, ◌<◌, ◌≡◌, true, Option, none, some, length, get_elem?, take,
}
use poc_event_manager.LockeFreeQueue.Defs.{
  linking, ConsumerPc, resting, loading, testing, taking, State,
}

-- The first node that is not deleted: `head_` between the calls of swap.
abbrev pub position : ConsumerPc → ℕ → ℕ
position resting head = head
position (loading cur) head = cur
position (testing cur next) head = cur
position (taking cur) head = cur

-- Events moved out so far: the node at the position is empty, except just before the move.
abbrev pub is_taking : ConsumerPc → ℕ
is_taking (taking cur) = 1
is_taking _ = 0

-- What the consumer has loaded is what is stored.
abbrev pub IsLoaded : (ℕ → Option ℕ) → ConsumerPc → Type 0
IsLoaded next (testing cur (some n)) = next cur ≡ some n
IsLoaded next _ = Unit {0}

module _ {ℓ} {T : Type ℓ} where
  abbrev pub pos_of : State T → ℕ
  pos_of s = position s.consumer_pc s.head

  pub record IsLinked (s : State T) : Type ℓ where
    pub last : s.fresh ≡ suc s.tail
    pub numbered : length s.sent ≡ s.tail
    pub within : pos_of s ≤ s.tail
    pub alive : (k : ℕ) → pos_of s ≤ k → k ≤ s.tail → s.live k ≡ true
    pub allocated : (k : ℕ) → s.live k ≡ true → (pos_of s ≤ k) × (k ≤ s.tail)
    pub ascending : (k j : ℕ) → s.next k ≡ some j → (j ≡ suc k) × (k < s.tail)
    pub pending :
        (i n p : ℕ)
        → s.producer_pc i ≡ linking n p
        → (n ≡ suc p) × (p < s.tail) × (pos_of s ≤ p) × (s.next p ≡ none)
    pub apart :
        (i j n p m : ℕ) → s.producer_pc i ≡ linking n p → s.producer_pc j ≡ linking m p → i ≡ j
    pub owed :
        (k : ℕ) → k < s.tail → s.next k ≡ none → (i : ℕ) × (s.producer_pc i ≡ linking (suc k) k)
    pub loaded : IsLoaded s.next s.consumer_pc
    pub counted : length s.received + is_taking s.consumer_pc ≡ pos_of s
    pub prefix : s.received ≡ take (length s.received) s.sent
    pub stored :
        (k : ℕ) → length s.received ≤ k → k < s.tail → s.payload (suc k) ≡ get_elem? s.sent k
