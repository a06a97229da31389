-- ===== src/App2/Exchange.antt =====
-- app2.cpp: what one manager sends and the other receives, kept by each call.
use poc_event_manager.Prelude.{
  ℕ, ◌+◌, ◌≡◌, refl, sym, ap, subst, ◌∙◌, Bool, if◌then◌else◌, ◌++◌, append-nil, append_assoc, true,
  false, some, List, [], ◌∷◌, map, ℤ, ◌==ℤ◌, minus_one, length, length-append, lookup, int_eq,
  Option-cases, inl, inr, arith,
}
use poc_event_manager.PipedEvent.Defs.{construct as construct_event}
use poc_event_manager.Event.{Event, event_a, event_b}
use poc_event_manager.EventPoller.Defs.{EventPoller, construct, add}
use poc_event_manager.EventPoller.Watching.{lookup-add}
use poc_event_manager.EventPoller.Calls.{take_events, take_pair, hand_over}
use poc_event_manager.ListManager.{new_manager, build, send, consume_event, produce}
use poc_event_manager.Loop.Keeping.{IsKeptByCalls}
use poc_event_manager.App2.Defs.{
  Ref, ref_a, ref_b, System, manager_of, with_manager, objects, event_of, run_impl, machine, wire,
  start,
}

abbrev pub other : Ref → Ref
other ref_a = ref_b
other ref_b = ref_a

-- Every watched descriptor leads from one manager to the other.
pub IsCrossed : EventPoller Ref Ref → Type 0
IsCrossed poller = (fd : ℤ) (p c : Ref) → lookup fd poller.watchers ≡ some (p, c) → c ≡ other p

add-IsCrossed :
    (ctl fd : ℤ) (p : Ref) (poller : EventPoller Ref Ref)
    → IsCrossed poller
    → IsCrossed (add ctl fd p (other p) poller).1
unfolding IsCrossed
add-IsCrossed ctl fd p poller h j q c e =
    ground (arith, (lookup-add ctl fd j p (other p) poller).1, h j q c)

unfoldable pub is_same : Ref → Ref → Bool
is_same ref_a ref_a = true
is_same ref_b ref_b = true
is_same _ _ = false

-- The events that one manager's calls of _runImpl make.
unfoldable pub made : Ref → List (Ref × (ℤ × ℤ)) → List Event
unfolding is_same
made r [] = []
made r ((q, draws) ∷ past) =
    let rest = made r past in if is_same r q then event_of r draws ∷ rest else rest

-- From the manager that made the events to the one that consumes them: none is lost, none comes
-- twice, and they keep their order. `queued` is on the way or waits.
pub record Channel (events consumed queued : List Event) (tx rx : ℕ) : Type 0 where
  pub order : consumed ++ queued ≡ events
  pub sent : tx ≡ length events
  pub received : rx ≡ length consumed

-- `owed_a` and `owed_b` were taken by Produce and are still to be consumed.
pub record Flow (owed_a owed_b : List Event) (past : List (Ref × (ℤ × ℤ))) (s : System)
    : Type 0 where
  pub from_a :
      Channel
        (made ref_a past)
        s.consumed_b
        (owed_a ++ s.a.tx_queue)
        s.a.counters.tx
        s.b.counters.rx
  pub from_b :
      Channel
        (made ref_b past)
        s.consumed_a
        (owed_b ++ s.b.tx_queue)
        s.b.counters.tx
        s.a.counters.rx

made_snoc :
    (r q : Ref) (draws : ℤ × ℤ) (past : List (Ref × (ℤ × ℤ)))
    → made r (past ++ (q, draws) ∷ [])
      ≡ (if is_same r q then made r past ++ event_of r draws ∷ [] else made r past)
unfolding made
made_snoc r q draws [] = ground arith
made_snoc r q draws ((p, before) ∷ past) = ground (arith, made_snoc r q draws past)

send-Channel :
    (e : Event) (events consumed queued : List Event) (tx rx : ℕ)
    → Channel events consumed queued tx rx
    → Channel (events ++ e ∷ []) consumed (queued ++ e ∷ []) (tx + 1) rx
send-Channel e events consumed queued tx rx c = record {
  order =
      sym (append_assoc consumed queued (e ∷ [])) ∙ ap (λ (l : List Event). l ++ e ∷ []) c.order;
  sent = omega (arith, c.sent, length-append events (e ∷ []));
  received = c.received;
}

consume-Channel :
    (e : Event) (events consumed queued : List Event) (tx rx : ℕ)
    → Channel events consumed (e ∷ queued) tx rx
    → Channel events (consumed ++ e ∷ []) queued tx (rx + 1)
consume-Channel e events consumed queued tx rx c = record {
  order = append_assoc consumed (e ∷ []) queued ∙ c.order;
  sent = c.sent;
  received = omega (arith, c.received, length-append consumed (e ∷ []));
}

-- The events that `main` has still to hand to a manager.
unfoldable pub on_way : Ref → List (Ref × Event) → List Event
on_way r [] = []
on_way r ((c, e) ∷ ds) = let rest = on_way r ds in if is_same r c then e ∷ rest else rest

on_way_all :
    (r c : Ref) (es : List Event)
    → on_way r (map (λ e. (c, e)) es) ≡ (if is_same r c then es else [])
unfolding on_way
on_way_all r c [] = ground arith
on_way_all r c (e ∷ es) = ground (arith, on_way_all r c es)

queue-Channel :
    (e : Event) (events consumed owed queue : List Event) (tx rx : ℕ)
    → Channel events consumed (owed ++ queue) tx rx
    → Channel (events ++ e ∷ []) consumed (owed ++ (queue ++ e ∷ [])) (tx + 1) rx
queue-Channel e events consumed owed queue tx rx c =
    subst (λ queued. Channel (events ++ e ∷ []) consumed queued (tx + 1) rx)
      (append_assoc owed queue (e ∷ [])) (send-Channel e events consumed (owed ++ queue) tx rx c)

module _ (owed_a owed_b : List Event) where
  run_impl-Flow :
      (r : Ref) (draws : ℤ × ℤ) (past : List (Ref × (ℤ × ℤ))) (s : System)
      → Flow owed_a owed_b past s
      → Flow owed_a owed_b (past ++ (r, draws) ∷ []) (run_impl r draws s)
  unfolding run_impl send is_same
  run_impl-Flow ref_a draws past s f = record {
    from_a = rw (made_snoc ref_a ref_a draws past) (
        queue-Channel (event_a draws.1) (made ref_a past) s.consumed_b owed_a s.a.tx_queue
          s.a.counters.tx s.b.counters.rx f.from_a);
    from_b = rw (made_snoc ref_b ref_a draws past) f.from_b;
  }
  run_impl-Flow ref_b draws past s f = record {
    from_a = rw (made_snoc ref_a ref_b draws past) f.from_a;
    from_b = rw (made_snoc ref_b ref_b draws past) (
        queue-Channel (event_b draws.1) (made ref_b past) s.consumed_a owed_b s.b.tx_queue
          s.b.counters.tx s.a.counters.rx f.from_b);
  }

-- `ds` was taken by Produce and is still to be handed over.
abbrev pub Exchanged : List (Ref × Event) → List (Ref × (ℤ × ℤ)) → System → Type 0
Exchanged ds past s = Flow (on_way ref_b ds) (on_way ref_a ds) past s

deliver-Exchanged :
    (d : Ref × Event) (ds : List (Ref × Event)) (past : List (Ref × (ℤ × ℤ))) (s : System)
    → Exchanged (d ∷ ds) past s
    → Exchanged ds past (hand_over objects d s)
unfolding on_way is_same consume_event
deliver-Exchanged (ref_a, e) ds past s f = record {
  from_a = f.from_a;
  from_b =
      consume-Channel e (made ref_b past) s.consumed_a (on_way ref_a ds ++ s.b.tx_queue)
        s.b.counters.tx s.a.counters.rx f.from_b;
}
deliver-Exchanged (ref_b, e) ds past s f = record {
  from_a =
      consume-Channel e (made ref_a past) s.consumed_b (on_way ref_b ds ++ s.a.tx_queue)
        s.a.counters.tx s.b.counters.rx f.from_a;
  from_b = f.from_b;
}

-- Produce of one manager, for the other.
take-Flow :
    (p : Ref) (past : List (Ref × (ℤ × ℤ))) (s : System)
    → Exchanged [] past s
    → Exchanged
        (map (λ e. (other p, e)) (produce (manager_of p s)).0)
        past
        (with_manager p (produce (manager_of p s)).1 s)
unfolding produce on_way is_same
take-Flow ref_a past s f = record {
  from_a = rw (on_way_all ref_b ref_b s.a.tx_queue, append-nil s.a.tx_queue) f.from_a;
  from_b = rw (on_way_all ref_a ref_b s.a.tx_queue) f.from_b;
}
take-Flow ref_b past s f = record {
  from_a = rw (on_way_all ref_b ref_a s.b.tx_queue) f.from_a;
  from_b = rw (on_way_all ref_a ref_a s.b.tx_queue, append-nil s.b.tx_queue) f.from_b;
}

take-Exchanged :
    (poller : EventPoller Ref Ref)
    → IsCrossed poller
    → (fd : ℤ) (past : List (Ref × (ℤ × ℤ))) (s : System) → Exchanged [] past s
    → (ds : List (Ref × Event)) × (s' : System) × (take_events objects poller fd s ≡ some (ds, s'))
      × Exchanged ds past s'
unfolding take_events take_pair IsCrossed
take-Exchanged poller w fd past s f = elim (Option-cases (lookup fd poller.watchers)) [
  | inl e ↦ ([], s, rw (e, take_events), f)
  | inr ((p, c), e) ↦ (
    map (λ e. (other p, e)) (produce (manager_of p s)).0,
    with_manager p (produce (manager_of p s)).1 s,
    rw (e, take_events, w fd p c e) refl,
    take-Flow p past s f,
  )
]

pub Exchanged-kept :
    (poller : EventPoller Ref Ref) → IsCrossed poller → IsKeptByCalls (machine poller) Exchanged
Exchanged-kept poller w = record {
  run_keeps = λ x ds past s f. (
    run_impl x.0 x.1 s,
    refl,
    run_impl-Flow (on_way ref_b ds) (on_way ref_a ds) x.0 x.1 past s f,
  );
  take_keeps = λ ready fd past s f. take-Exchanged poller w fd past s f;
  deliver_keeps = deliver-Exchanged;
}

wire-IsCrossed :
    (ctl_a ctl_b : ℤ) (s : System) (poller : EventPoller Ref Ref)
    → poller.watchers ≡ []
    → IsCrossed (wire ctl_a ctl_b s poller)
unfolding wire IsCrossed lookup
wire-IsCrossed ctl_a ctl_b s poller fresh =
    add-IsCrossed ctl_b s.b.tx_event.source ref_b
      (add ctl_a s.a.tx_event.source ref_a ref_b poller).1
      (add-IsCrossed ctl_a s.a.tx_event.source ref_a poller (λ fd p c e. absurd (cc (e, fresh))))

-- What `main` has built when its loop begins.
abbrev pub built : ℤ × ℤ → ℤ × ℤ → System
built fds_a fds_b = record {
  a = new_manager (record { source = fds_a.0; sink = fds_a.1; fired = false; log = [] });
  b = new_manager (record { source = fds_b.0; sink = fds_b.1; fired = false; log = [] });
  consumed_a = [];
  consumed_b = [];
}

abbrev pub wired : ℤ × ℤ → ℤ × ℤ → ℤ → ℤ → ℤ → EventPoller Ref Ref
wired fds_a fds_b created ctl_a ctl_b =
    wire ctl_a ctl_b (built fds_a fds_b) (record { fd = created; watchers = [] })

pub start_lem :
    (fds_a fds_b : ℤ × ℤ) (created ctl_a ctl_b : ℤ)
    → (created ==ℤ minus_one) ≡ false
    → start (some fds_a) (some fds_b) created ctl_a ctl_b
      ≡ some (built fds_a fds_b, wired fds_a fds_b created ctl_a ctl_b)
unfolding start build construct_event construct
start_lem (sa, ka) (sb, kb) created ctl_a ctl_b h = rw h refl

pub wired-IsCrossed :
    (fds_a fds_b : ℤ × ℤ) (created ctl_a ctl_b : ℤ)
    → IsCrossed (wired fds_a fds_b created ctl_a ctl_b)
wired-IsCrossed fds_a fds_b created ctl_a ctl_b =
    wire-IsCrossed ctl_a ctl_b (built fds_a fds_b) (record { fd = created; watchers = [] }) refl

pub built-Exchanged : (fds_a fds_b : ℤ × ℤ) → Exchanged [] [] (built fds_a fds_b)
unfolding on_way made
built-Exchanged fds_a fds_b = record {
  from_a = record { order = refl; sent = refl; received = refl };
  from_b = record { order = refl; sent = refl; received = refl };
}
