-- ===== src/Main/Hub.antt =====
-- main.cpp: what is counted and queued, call by call.
use poc_event_manager.Prelude.{
  ◌+◌, ◌∙◌, ◌++◌, sym, ap, append-nil, append_assoc, ltb, inl, inr, Bool-cases, ◌≤◌, ◌≡◌, ℤ, refl,
  Bool, true, false, List, [], ◌∷◌, length, length-append, All, All-snoc, arith,
}
use poc_event_manager.Event.{Event, event_a, event_b}
use poc_event_manager.Delivery.{
  IsDelivered, send-IsDelivered, drop-IsDelivered, consume-IsDelivered,
}
use poc_event_manager.ListManager.{Manager, send, consume_event, produce}
use poc_event_manager.Main.Defs.{
  max_queue_size, Ref, ref_a, ref_b, ref_c, System, send_limited, thread_body, run_impl, consume_c,
  objects, give_back,
}

abbrev pub is_a : Event → Bool
is_a (event_a _) = true
is_a (event_b _) = false

-- ManagerB is idle: its thread is not run, and no event of its type exists.
pub record IsIdle (m : Manager) : Type 0 where
  pub unsent : m.counters.tx ≡ 0
  pub unreceived : m.counters.rx ≡ 0
  pub unqueued : m.tx_queue ≡ []

-- The events that ManagerA's calls of _runImpl make.
unfoldable pub made : List (Ref × (ℤ × ℤ)) → List Event
made [] = []
made ((ref_a, draws) ∷ past) = event_a draws.1 ∷ made past
made ((ref_b, draws) ∷ past) = made past
made ((ref_c, draws) ∷ past) = made past

made-append : (past later : List (Ref × (ℤ × ℤ))) → made (past ++ later) ≡ made past ++ made later
unfolding made
made-append [] later = refl
made-append ((ref_a, draws) ∷ past) later =
    ap (λ (l : List Event). event_a draws.1 ∷ l) (made-append past later)
made-append ((ref_b, draws) ∷ past) later = made-append past later
made-append ((ref_c, draws) ∷ past) later = made-append past later

-- `to_c` are events of ManagerA on the way to ManagerC, and `to_a` of ManagerC on the way to
-- ManagerA.
pub record Inv (to_c to_a : List Event) (past : List (Ref × (ℤ × ℤ))) (s : System) : Type 0 where
  pub delivered :
      IsDelivered
        (made past)
        s.consumed_a
        (to_a ++ (s.c.tx_queue ++ (to_c ++ s.a.tx_queue)))
        s.a.counters
  pub from_a : s.a.counters.tx ≡ s.c.counters.rx + length s.a.tx_queue + length to_c
  pub through_c : s.c.counters.tx ≡ s.c.counters.rx
  pub produced : s.events_produced ≡ s.a.counters.rx
  pub idle : IsIdle s.b
  pub kinds_a : All is_a s.a.tx_queue
  pub kinds_c : All is_a s.c.tx_queue
  pub bounded : length s.a.tx_queue ≤ max_queue_size + 1

send_limited-IsDelivered :
    (e : Event) (offered consumed before : List Event) (m : Manager)
    → IsDelivered offered consumed (before ++ m.tx_queue) m.counters
    → IsDelivered
        (offered ++ e ∷ [])
        consumed
        (before ++ (send_limited e m).tx_queue)
        (send_limited e m).counters
unfolding send_limited send
send_limited-IsDelivered e offered consumed before m d =
    elim (Bool-cases (ltb max_queue_size (length m.tx_queue))) [
      | inl full ↦ rw full (drop-IsDelivered e offered consumed (before ++ m.tx_queue) m.counters d)
      | inr free ↦
          rw (free, sym (append_assoc before m.tx_queue (e ∷ [])))
            (send-IsDelivered e offered consumed (before ++ m.tx_queue) m.counters d)
    ]

-- The events behind `to_a`, with ManagerA's queue last.
regroup :
    (to_a queue to_c rest : List Event)
    → (to_a ++ (queue ++ to_c)) ++ rest ≡ to_a ++ (queue ++ (to_c ++ rest))
regroup to_a queue to_c rest =
    append_assoc to_a (queue ++ to_c) rest ∙ ap (λ l. to_a ++ l) (append_assoc queue to_c rest)

module _ (to_c to_a : List Event) where
  send_limited-Inv :
      (draws : ℤ × ℤ) (past : List (Ref × (ℤ × ℤ))) (s : System)
      → Inv to_c to_a past s
      → Inv to_c to_a
          (past ++ (ref_a, draws) ∷ [])
          (record s { a = send_limited (event_a draws.1) s.a })
  unfolding send_limited send made
  send_limited-Inv draws past s v = record {
    delivered =
        rw
          (
            made-append past ((ref_a, draws) ∷ []),
            sym (regroup to_a s.c.tx_queue to_c (send_limited (event_a draws.1) s.a).tx_queue),
          )
          (send_limited-IsDelivered (event_a draws.1) (made past) s.consumed_a
            (to_a ++ (s.c.tx_queue ++ to_c)) s.a
            (rw (regroup to_a s.c.tx_queue to_c s.a.tx_queue) v.delivered));
    from_a = ground (arith, v.from_a, length-append s.a.tx_queue (event_a draws.1 ∷ []));
    through_c = v.through_c;
    produced = ground (arith, v.produced);
    idle = v.idle;
    kinds_a =
        ground (arith, v.kinds_a, All-snoc is_a s.a.tx_queue (event_a draws.1) v.kinds_a refl);
    kinds_c = v.kinds_c;
    bounded = ground (arith, v.bounded, length-append s.a.tx_queue (event_a draws.1 ∷ []));
  }

  -- Calls that make no event.
  idle-Inv :
      (entry : Ref × (ℤ × ℤ)) (past : List (Ref × (ℤ × ℤ))) (s : System)
      → made (entry ∷ []) ≡ []
      → Inv to_c to_a past s
      → Inv to_c to_a (past ++ entry ∷ []) s
  idle-Inv entry past s none_made v = record {
    delivered = rw (made-append past (entry ∷ []), none_made, append-nil (made past)) v.delivered;
    from_a = v.from_a;
    through_c = v.through_c;
    produced = v.produced;
    idle = v.idle;
    kinds_a = v.kinds_a;
    kinds_c = v.kinds_c;
    bounded = v.bounded;
  }

  pub run_impl-Inv :
      (r : Ref) (draws : ℤ × ℤ) (past : List (Ref × (ℤ × ℤ))) (s : System)
      → Inv to_c to_a past s
      → Inv to_c to_a (past ++ (r, draws) ∷ []) (run_impl r draws s)
  unfolding run_impl thread_body made
  run_impl-Inv ref_a draws past s v = send_limited-Inv draws past s v
  run_impl-Inv ref_b draws past s v = idle-Inv (ref_b, draws) past s refl v
  run_impl-Inv ref_c draws past s v = idle-Inv (ref_c, draws) past s refl v

  -- ManagerC consumes an event that ManagerA made.
  pub consume-Inv :
      (e : Event) (past : List (Ref × (ℤ × ℤ))) (s : System)
      → is_a e ≡ true
      → Inv (e ∷ to_c) to_a past s
      → Inv to_c to_a past (objects.consume ref_c e s)
  unfolding consume_c
  consume-Inv e past s k v = record {
    delivered = rw (append_assoc s.c.tx_queue (e ∷ []) (to_c ++ s.a.tx_queue)) v.delivered;
    from_a = omega (arith, v.from_a);
    through_c = omega (arith, v.through_c);
    produced = v.produced;
    idle = v.idle;
    kinds_a = v.kinds_a;
    kinds_c = All-snoc is_a s.c.tx_queue e v.kinds_c k;
    bounded = v.bounded;
  }

  -- `main` gives an event back to ManagerA.
  pub give_back-Inv :
      (e : Event) (past : List (Ref × (ℤ × ℤ))) (s : System)
      → is_a e ≡ true
      → Inv to_c (e ∷ to_a) past s
      → Inv to_c to_a past (give_back e s)
  unfolding give_back consume_event
  give_back-Inv (event_b d) past s k v = absurd (cc k)
  give_back-Inv (event_a d) past s k v = record {
    delivered =
        consume-IsDelivered (event_a d) (made past) s.consumed_a
          (to_a ++ (s.c.tx_queue ++ (to_c ++ s.a.tx_queue))) s.a.counters v.delivered;
    from_a = v.from_a;
    through_c = v.through_c;
    produced = omega (arith, v.produced);
    idle = v.idle;
    kinds_a = v.kinds_a;
    kinds_c = v.kinds_c;
    bounded = v.bounded;
  }

-- Produce of ManagerA, in Execute.
pub produce_a-Inv :
    (past : List (Ref × (ℤ × ℤ))) (s : System)
    → Inv [] [] past s
    → Inv s.a.tx_queue [] past (record s { a = (produce s.a).1 })
unfolding produce
produce_a-Inv past s v = record {
  delivered = rw (append-nil s.a.tx_queue) v.delivered;
  from_a = omega (arith, v.from_a);
  through_c = v.through_c;
  produced = v.produced;
  idle = v.idle;
  kinds_a = tt;
  kinds_c = v.kinds_c;
  bounded = omega arith;
}

-- Produce of ManagerB, which has nothing queued.
pub produce_b-Inv :
    (past : List (Ref × (ℤ × ℤ))) (s : System)
    → Inv [] [] past s
    → Inv [] [] past (record s { b = (produce s.b).1 })
unfolding produce
produce_b-Inv past s v = record {
  delivered = v.delivered;
  from_a = v.from_a;
  through_c = v.through_c;
  produced = v.produced;
  idle = record { unsent = v.idle.unsent; unreceived = v.idle.unreceived; unqueued = refl };
  kinds_a = v.kinds_a;
  kinds_c = v.kinds_c;
  bounded = v.bounded;
}

-- Produce of ManagerC, in the loop of `main`.
pub produce_c-Inv :
    (past : List (Ref × (ℤ × ℤ))) (s : System)
    → Inv [] [] past s
    → Inv [] s.c.tx_queue past (record s { c = (produce s.c).1 })
unfolding produce
produce_c-Inv past s v = record {
  delivered = v.delivered;
  from_a = v.from_a;
  through_c = v.through_c;
  produced = v.produced;
  idle = v.idle;
  kinds_a = v.kinds_a;
  kinds_c = tt;
  bounded = v.bounded;
}
