-- ===== src/App12/Sending.antt =====
-- What the managers' threads change.
use poc_event_manager.Prelude.{
  All, All-snoc, count_if, count_if_snoc, List, ℕ, ◌+◌, ◌%◌, ◌^◌, ◌==◌, ◌≡◌, refl, ◌∙◌, ap, sym,
  subst, Bool, true, false, [], ◌∷◌, ◌++◌, if◌then◌else◌, arith, length, length-append, ◌⊎◌, inl,
  inr, int_eq,
}
use poc_event_manager.Queues.Spsc.{SpscQueue}
use poc_event_manager.App12.Events.{Event}
use poc_event_manager.App12.Managers.{
  Manager, send, run_impl_a, run_impl_b, run_impl_c, serial_message, status_message,
  control_message,
}
use poc_event_manager.App12.Main.{
  Ref, ref_a, ref_b, ref_c, System, manager_of, with_manager, with_manager-all, run_thread,
}
use poc_event_manager.App12.Routing.{makes, accepts, id_of}
use poc_event_manager.App12.Effects.{arrived, is_ref, Inv}
use poc_event_manager.App12.Emptying.{arrived-with_manager}

module _ {Q : Type 0} (lib : SpscQueue Event Q) where
  open lib use {contents, try_emplace, try_emplace_back}

  -- What queueing an event does to the manager's books.
  record Sent (e : Event) (m m' : Manager Q) : Type 0 where
    same_id : m'.auto_id ≡ m.auto_id
    same_rx : m'.counters.rx ≡ m.counters.rx
    same_consumed : m'.consumed ≡ m.consumed
    counted :
        m'.counters.tx + length (contents m.tx_queue)
        ≡ m.counters.tx + length (contents m'.tx_queue)
    spent : m'.counters.tx + m'.counters.dropped ≡ m.counters.tx + m.counters.dropped + 1
    queued :
        (contents m'.tx_queue ≡ contents m.tx_queue)
        ⊎ (contents m'.tx_queue ≡ contents m.tx_queue ++ e ∷ [])

  send-Sent : (e : Event) (m : Manager Q) → Sent e m (send lib e m)
  unfolding send
  send-Sent e m =
      ground (arith, try_emplace_back e m.tx_queue, length-append (contents m.tx_queue) (e ∷ []))

  Sent-made :
      (t : Event → Bool) (e : Event) (m m' : Manager Q)
      → Sent e m m'
      → t e ≡ true
      → All t (contents m.tx_queue)
      → All t (contents m'.tx_queue)
  Sent-made t e m m' x h k = elim x.queued [
    | inl q ↦ subst (All t) (sym q) k
    | inr q ↦ subst (All t) (sym q) (All-snoc t (contents m.tx_queue) e k h)
  ]

  -- While events are owed.
  module _ (owed : Ref → ℕ) where
    Sent-flow :
        {past : List Ref} (p : Ref) (e : Event) (m' : Manager Q) (s : System Q) (q : Ref)
        → Sent e (manager_of p s) m'
        → Inv lib past owed s
        → (manager_of q (with_manager p m' s)).counters.tx
          ≡ arrived q s + owed q + length (contents (manager_of q (with_manager p m' s)).tx_queue)
    Sent-flow ref_a e m' s ref_a x v = omega (arith, v.flow ref_a, x.counted)
    Sent-flow ref_a e m' s ref_b x v = v.flow ref_b
    Sent-flow ref_a e m' s ref_c x v = v.flow ref_c
    Sent-flow ref_b e m' s ref_a x v = v.flow ref_a
    Sent-flow ref_b e m' s ref_b x v = omega (arith, v.flow ref_b, x.counted)
    Sent-flow ref_b e m' s ref_c x v = v.flow ref_c
    Sent-flow ref_c e m' s ref_a x v = v.flow ref_a
    Sent-flow ref_c e m' s ref_b x v = v.flow ref_b
    Sent-flow ref_c e m' s ref_c x v = omega (arith, v.flow ref_c, x.counted)

    Sent-accounted :
        (past : List Ref) (p : Ref) (e : Event) (m' : Manager Q) (s : System Q) (q : Ref)
        → Sent e (manager_of p s) m'
        → Inv lib past owed s
        → (manager_of q (with_manager p m' s)).counters.tx
            + (manager_of q (with_manager p m' s)).counters.dropped
          ≡ count_if (is_ref q) (past ++ p ∷ [])
    Sent-accounted past ref_a e m' s ref_a x v =
        omega (arith, v.accounted ref_a, count_if_snoc (is_ref ref_a) past ref_a, x.spent)
    Sent-accounted past ref_a e m' s ref_b x v =
        omega (arith, v.accounted ref_b, count_if_snoc (is_ref ref_b) past ref_a)
    Sent-accounted past ref_a e m' s ref_c x v =
        omega (arith, v.accounted ref_c, count_if_snoc (is_ref ref_c) past ref_a)
    Sent-accounted past ref_b e m' s ref_a x v =
        omega (arith, v.accounted ref_a, count_if_snoc (is_ref ref_a) past ref_b)
    Sent-accounted past ref_b e m' s ref_b x v =
        omega (arith, v.accounted ref_b, count_if_snoc (is_ref ref_b) past ref_b, x.spent)
    Sent-accounted past ref_b e m' s ref_c x v =
        omega (arith, v.accounted ref_c, count_if_snoc (is_ref ref_c) past ref_b)
    Sent-accounted past ref_c e m' s ref_a x v =
        omega (arith, v.accounted ref_a, count_if_snoc (is_ref ref_a) past ref_c)
    Sent-accounted past ref_c e m' s ref_b x v =
        omega (arith, v.accounted ref_b, count_if_snoc (is_ref ref_b) past ref_c)
    Sent-accounted past ref_c e m' s ref_c x v =
        omega (arith, v.accounted ref_c, count_if_snoc (is_ref ref_c) past ref_c, x.spent)

    send-Inv :
        {past : List Ref} (p : Ref) (e : Event) (s : System Q)
        → makes p e ≡ true
        → Inv lib past owed s
        → Inv lib (past ++ p ∷ []) owed (with_manager p (send lib e (manager_of p s)) s)
    send-Inv {past} p e s h v =
        let m' = send lib e (manager_of p s) in
        let x = send-Sent e (manager_of p s) in
        record {
          ids =
              with_manager-all (λ q m. m.auto_id.id ≡ id_of q) p m' s
                (ap (λ i. i.id) x.same_id ∙ v.ids p) v.ids;
          flow = λ q.
              rw (arrived-with_manager lib p m' s q x.same_consumed) (Sent-flow p e m' s q x v);
          accounted = λ q. Sent-accounted past p e m' s q x v;
          received =
              with_manager-all (λ q m. m.counters.rx ≡ length m.consumed) p m' s
                (x.same_rx ∙ v.received p ∙ ap length (sym x.same_consumed)) v.received;
          made =
              with_manager-all (λ q m. All (makes q) (contents m.tx_queue)) p m' s
                (Sent-made (makes p) e (manager_of p s) m' x h (v.made p)) v.made;
          taken =
              with_manager-all (λ q m. All (accepts q) m.consumed) p m' s
                (subst (All (accepts p)) (sym x.same_consumed) (v.taken p)) v.taken;
        }

    -- The counter of ManagerA is in no book.
    abbrev with_counter : ℕ → System Q → System Q
    with_counter n s = record s { a = record { base = s.a.base; counter = n } }

    counter-all :
        (P : Ref → Manager Q → Type 0) (n : ℕ) (s : System Q)
        → ((p : Ref) → P p (manager_of p s))
        → (p : Ref) → P p (manager_of p (with_counter n s))
    counter-all P n s h ref_a = h ref_a
    counter-all P n s h ref_b = h ref_b
    counter-all P n s h ref_c = h ref_c

    counter-flow :
        {past : List Ref} (n : ℕ) (s : System Q)
        → Inv lib past owed s
        → (q : Ref)
        → (manager_of q (with_counter n s)).counters.tx
          ≡ arrived q (with_counter n s)
            + owed q
            + length (contents (manager_of q (with_counter n s)).tx_queue)
    counter-flow n s v ref_a = v.flow ref_a
    counter-flow n s v ref_b = v.flow ref_b
    counter-flow n s v ref_c = v.flow ref_c

    counter-Inv :
        {past : List Ref} (n : ℕ) (s : System Q)
        → Inv lib past owed s
        → Inv lib past owed (with_counter n s)
    counter-Inv {past} n s v = record {
      ids = counter-all (λ q m. m.auto_id.id ≡ id_of q) n s v.ids;
      flow = counter-flow n s v;
      accounted =
          counter-all (λ q m. m.counters.tx + m.counters.dropped ≡ count_if (is_ref q) past) n s
            v.accounted;
      received = counter-all (λ q m. m.counters.rx ≡ length m.consumed) n s v.received;
      made = counter-all (λ q m. All (makes q) (contents m.tx_queue)) n s v.made;
      taken = counter-all (λ q m. All (accepts q) m.consumed) n s v.taken;
    }

    makes_a : (b : Bool) → makes ref_a (if b then status_message else serial_message) ≡ true
    makes_a true = refl
    makes_a false = refl

    run_impl_a-Inv :
        {past : List Ref} (s : System Q)
        → Inv lib past owed s
        → Inv lib (past ++ ref_a ∷ []) owed (record s { a = run_impl_a lib s.a })
    unfolding run_impl_a
    run_impl_a-Inv s v =
        let e = if s.a.counter % 2 == 0 then status_message else serial_message in
        let n = (s.a.counter + 1) % 2 ^ 32 in
        counter-Inv n (with_manager ref_a (send lib e s.a.base) s)
          (send-Inv ref_a e s (makes_a (s.a.counter % 2 == 0)) v)

    pub run_thread-Inv :
        {past : List Ref} (p : Ref) (s : System Q)
        → Inv lib past owed s
        → Inv lib (past ++ p ∷ []) owed (run_thread lib p s)
    unfolding run_thread run_impl_b run_impl_c
    run_thread-Inv ref_a s v = run_impl_a-Inv s v
    run_thread-Inv ref_b s v = send-Inv ref_b serial_message s refl v
    run_thread-Inv ref_c s v = send-Inv ref_c control_message s refl v
