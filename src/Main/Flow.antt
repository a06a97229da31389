-- ===== src/Main/Flow.antt =====
-- main.cpp: the round trip of the events through ManagerC, kept by each call.
use poc_event_manager.Prelude.{
  ◌≡◌, ◌≢◌, ◌∷◌, map, refl, false, Bool, some, List, [], ℤ, ◌==ℤ◌, minus_one, lookup, int_eq, All,
  Bool-cases, Option-cases, inl, inr, arith,
}
use poc_event_manager.Delivery.{begin-IsDelivered}
use poc_event_manager.PipedEvent.Defs.{construct as construct_event}
use poc_event_manager.EventPoller.Defs.{EventPoller, construct, add}
use poc_event_manager.EventPoller.Watching.{lookup-add}
use poc_event_manager.EventPoller.Calls.{take_events, take_pair}
use poc_event_manager.Event.{Event}
use poc_event_manager.ListManager.{new_manager, build, produce}
use poc_event_manager.Loop.Keeping.{IsKeptByCalls}
use poc_event_manager.Main.Defs.{
  Ref, ref_a, ref_b, ref_c, System, objects, Call, gives_back, hands_over, take, deliver, machine,
  run_impl, wire, start,
}
use poc_event_manager.Main.Hub.{
  is_a, made, Inv, run_impl-Inv, consume-Inv, give_back-Inv, produce_a-Inv, produce_b-Inv,
  produce_c-Inv,
}

-- Every watched descriptor leads from ManagerA or ManagerB to ManagerC.
pub IsHub : EventPoller Ref Ref → Type 0
IsHub poller =
    (fd : ℤ) (p c : Ref) → lookup fd poller.watchers ≡ some (p, c) → (p ≢ ref_c) × (c ≡ ref_c)

add-IsHub :
    (ctl fd : ℤ) (p : Ref) (poller : EventPoller Ref Ref)
    → p ≢ ref_c
    → IsHub poller
    → IsHub (add ctl fd p ref_c poller).1
unfolding IsHub
add-IsHub ctl fd p poller n h j q c e =
    ground (arith, (lookup-add ctl fd j p ref_c poller).1, h j q c)

wire-IsHub :
    (ctl_a ctl_b : ℤ) (s : System) (poller : EventPoller Ref Ref)
    → poller.watchers ≡ []
    → IsHub (wire ctl_a ctl_b s poller)
unfolding wire IsHub lookup
wire-IsHub ctl_a ctl_b s poller fresh =
    add-IsHub ctl_b s.b.tx_event.source ref_b (add ctl_a s.a.tx_event.source ref_a ref_c poller).1
      (λ e. cc e)
      (add-IsHub ctl_a s.a.tx_event.source ref_a poller (λ e. cc e)
        (λ fd p c e. absurd (cc (e, fresh))))

-- The events that `main` has still to give back, and those that Execute has still to hand over.
unfoldable pub to_give_back : List Call → List Event
to_give_back [] = []
to_give_back (gives_back e ∷ ds) = e ∷ to_give_back ds
to_give_back (hands_over d ∷ ds) = to_give_back ds

unfoldable pub to_hand_over : List Call → List Event
to_hand_over [] = []
to_hand_over (gives_back e ∷ ds) = to_hand_over ds
to_hand_over (hands_over d ∷ ds) = d.1 ∷ to_hand_over ds

-- Only ManagerC gets events by Execute, and only events of ManagerA are under way.
abbrev is_fitting : Call → Bool
is_fitting (gives_back e) = is_a e
is_fitting (hands_over (ref_c, e)) = is_a e
is_fitting (hands_over (ref_a, e)) = false
is_fitting (hands_over (ref_b, e)) = false

pub record Going (ds : List Call) (past : List (Ref × (ℤ × ℤ))) (s : System) : Type 0 where
  pub inv : Inv (to_hand_over ds) (to_give_back ds) past s
  pub fitting : All is_fitting ds

to_give_back-gives_back : (es : List Event) → to_give_back (map gives_back es) ≡ es
unfolding to_give_back
to_give_back-gives_back [] = refl
to_give_back-gives_back (e ∷ es) = rw (to_give_back-gives_back es) refl

to_hand_over-gives_back : (es : List Event) → to_hand_over (map gives_back es) ≡ []
unfolding to_hand_over
to_hand_over-gives_back [] = refl
to_hand_over-gives_back (e ∷ es) = to_hand_over-gives_back es

abbrev all_to_c : List Event → List Call
all_to_c es = map hands_over (map (λ e. (ref_c, e)) es)

to_give_back-all_to_c : (es : List Event) → to_give_back (all_to_c es) ≡ []
unfolding to_give_back
to_give_back-all_to_c [] = refl
to_give_back-all_to_c (e ∷ es) = to_give_back-all_to_c es

to_hand_over-all_to_c : (es : List Event) → to_hand_over (all_to_c es) ≡ es
unfolding to_hand_over
to_hand_over-all_to_c [] = refl
to_hand_over-all_to_c (e ∷ es) = rw (to_hand_over-all_to_c es) refl

gives_back-fitting : (es : List Event) → All is_a es → All is_fitting (map gives_back es)
gives_back-fitting [] h = tt
gives_back-fitting (e ∷ es) h = (h.0, gives_back-fitting es h.1)

all_to_c-fitting : (es : List Event) → All is_a es → All is_fitting (all_to_c es)
all_to_c-fitting [] h = tt
all_to_c-fitting (e ∷ es) h = (h.0, all_to_c-fitting es h.1)

-- Execute up to its first call of Consume.
take_events-Going :
    (poller : EventPoller Ref Ref) (fd : ℤ) (past : List (Ref × (ℤ × ℤ))) (s : System)
    → IsHub poller
    → Inv [] [] past s
    → (ds : List (Ref × Event)) × (s' : System) × (take_events objects poller fd s ≡ some (ds, s'))
      × Going (map hands_over ds) past s'
unfolding take_events take_pair IsHub to_hand_over to_give_back produce
take_events-Going poller fd past s w v = elim (Option-cases (lookup fd poller.watchers)) [
  | inl e ↦ ([], s, rw (e, take_events), record { inv = v; fitting = tt })
  | inr ((ref_a, c), e) ↦ (
    map (λ e. (ref_c, e)) s.a.tx_queue,
    record s { a = (produce s.a).1 },
    rw (e, take_events, (w fd ref_a c e).1) refl,
    record {
      inv =
          rw (to_hand_over-all_to_c s.a.tx_queue, to_give_back-all_to_c s.a.tx_queue)
            (produce_a-Inv past s v);
      fitting = all_to_c-fitting s.a.tx_queue v.kinds_a;
    },
  )
  | inr ((ref_b, c), e) ↦ (
    [],
    record s { b = (produce s.b).1 },
    rw (e, take_events, (w fd ref_b c e).1, v.idle.unqueued) refl,
    record { inv = produce_b-Inv past s v; fitting = tt },
  )
  | inr ((ref_c, c), e) ↦ absurd ((w fd ref_c c e).0 refl)
]

take-Going :
    (poller : EventPoller Ref Ref) (fd : ℤ) (past : List (Ref × (ℤ × ℤ))) (s : System)
    → IsHub poller
    → Inv [] [] past s
    → (ds : List Call) × (s' : System) × (take poller fd s ≡ some (ds, s')) × Going ds past s'
unfolding take produce
take-Going poller fd past s w v = elim (Bool-cases (fd ==ℤ s.c.tx_event.source)) [
  | inl e ↦ (
    map gives_back s.c.tx_queue,
    record s { c = (produce s.c).1 },
    rw e refl,
    record {
      inv =
          rw (to_hand_over-gives_back s.c.tx_queue, to_give_back-gives_back s.c.tx_queue)
            (produce_c-Inv past s v);
      fitting = gives_back-fitting s.c.tx_queue v.kinds_c;
    },
  )
  | inr e ↦
      let (ds, s', taken, g) = take_events-Going poller fd past s w v in
      (map hands_over ds, s', rw (e, taken) refl, g)
]

deliver-Going :
    (d : Call) (ds : List Call) (past : List (Ref × (ℤ × ℤ))) (s : System)
    → Going (d ∷ ds) past s
    → Going ds past (deliver d s)
unfolding to_hand_over to_give_back
deliver-Going (gives_back e) ds past s g = record {
  inv = give_back-Inv (to_hand_over ds) (to_give_back ds) e past s g.fitting.0 g.inv;
  fitting = g.fitting.1;
}
deliver-Going (hands_over (ref_c, e)) ds past s g = record {
  inv = consume-Inv (to_hand_over ds) (to_give_back ds) e past s g.fitting.0 g.inv;
  fitting = g.fitting.1;
}
deliver-Going (hands_over (ref_a, e)) ds past s g = absurd (cc g.fitting.0)
deliver-Going (hands_over (ref_b, e)) ds past s g = absurd (cc g.fitting.0)

pub Going-kept :
    (poller : EventPoller Ref Ref) → IsHub poller → IsKeptByCalls (machine poller) Going
unfolding to_hand_over to_give_back
Going-kept poller w = record {
  run_keeps = λ x ds past s g. (
    run_impl x.0 x.1 s,
    refl,
    record {
      inv = run_impl-Inv (to_hand_over ds) (to_give_back ds) x.0 x.1 past s g.inv;
      fitting = g.fitting;
    },
  );
  take_keeps = λ ready fd past s g. take-Going poller fd past s w g.inv;
  deliver_keeps = deliver-Going;
}

-- What `main` has built when its loop begins.
abbrev pub built : ℤ × ℤ → ℤ × ℤ → ℤ × ℤ → System
built fds_a fds_b fds_c = record {
  a = new_manager (record { source = fds_a.0; sink = fds_a.1; fired = false; log = [] });
  b = new_manager (record { source = fds_b.0; sink = fds_b.1; fired = false; log = [] });
  c = new_manager (record { source = fds_c.0; sink = fds_c.1; fired = false; log = [] });
  events_produced = 0;
  consumed_a = [];
}

abbrev pub wired : ℤ × ℤ → ℤ × ℤ → ℤ × ℤ → ℤ → ℤ → ℤ → EventPoller Ref Ref
wired fds_a fds_b fds_c created ctl_a ctl_b =
    wire ctl_a ctl_b (built fds_a fds_b fds_c) (record { fd = created; watchers = [] })

pub start_lem :
    (fds_a fds_b fds_c : ℤ × ℤ) (created ctl_a ctl_b : ℤ)
    → (created ==ℤ minus_one) ≡ false
    → start (some fds_a) (some fds_b) (some fds_c) created ctl_a ctl_b
      ≡ some (built fds_a fds_b fds_c, wired fds_a fds_b fds_c created ctl_a ctl_b)
unfolding start build construct_event construct
start_lem (sa, ka) (sb, kb) (sc, kc) created ctl_a ctl_b h = rw h refl

pub wired-IsHub :
    (fds_a fds_b fds_c : ℤ × ℤ) (created ctl_a ctl_b : ℤ)
    → IsHub (wired fds_a fds_b fds_c created ctl_a ctl_b)
wired-IsHub fds_a fds_b fds_c created ctl_a ctl_b =
    wire-IsHub ctl_a ctl_b (built fds_a fds_b fds_c) (record { fd = created; watchers = [] }) refl

pub built-Going : (fds_a fds_b fds_c : ℤ × ℤ) → Going [] [] (built fds_a fds_b fds_c)
unfolding to_hand_over to_give_back made
built-Going fds_a fds_b fds_c = record {
  inv = record {
    delivered = begin-IsDelivered;
    from_a = refl;
    through_c = refl;
    produced = refl;
    idle = record { unsent = refl; unreceived = refl; unqueued = refl };
    kinds_a = tt;
    kinds_c = tt;
    bounded = omega arith;
  };
  fitting = tt;
}
