-- ===== src/App12/Owing.antt =====
-- The offers that are still to be made: which events are owed to whom.
use poc_event_manager.Prelude.{
  All, ℕ, suc, ◌+◌, ◌≡◌, refl, ◌∙◌, sym, Bool, true, not, ◌&&◌, ◌||◌, List, [], ◌∷◌, ◌++◌, map,
  length, if◌then◌else◌, Bool-cases, inl, inr, arith,
}
use poc_event_manager.Queues.Spsc.{SpscQueue}
use poc_event_manager.App12.Events.{
  Event, status_event, control_event, serial_event, event_type, event_type_eq,
}
use poc_event_manager.App12.Router.{EventRouter, subscribers, offer}
use poc_event_manager.App12.Deliveries.{is_eligible, clone-id}
use poc_event_manager.App12.Main.{Ref, ref_a, ref_b, ref_c, System, members}
use poc_event_manager.App12.Offers.{Offer, offers}
use poc_event_manager.App12.Wiring.{IsWired}
use poc_event_manager.App12.Routing.{makes, receiver, HasIds}
use poc_event_manager.App12.Effects.{is_ref, debt, debt_zero, Inv, same-Inv, consume-Inv}

-- How many events of a manager are left to arrive: an offer to the producer itself delivers nothing.
unfoldable pub owed : List (Offer Ref Ref) → Ref → ℕ
owed [] q = 0
owed (d ∷ ds) q = (if is_ref d.producer d.consumer then 0 else debt d.producer 1 q) + owed ds q

-- Any other offer is of an event that the producer makes, to the one that it goes to.
abbrev pub is_fitting : Offer Ref Ref → Bool
is_fitting d =
    is_ref d.producer d.consumer
    || (is_ref d.consumer (receiver d.producer d.event) && makes d.producer d.event)

owed-append :
    (ds later : List (Offer Ref Ref)) (q : Ref) → owed (ds ++ later) q ≡ owed ds q + owed later q
unfolding owed
owed-append [] later q = omega arith
owed-append (d ∷ ds) later q = omega (arith, owed-append ds later q)

is_fitting-append :
    (ds later : List (Offer Ref Ref))
    → All is_fitting ds
    → All is_fitting later
    → All is_fitting (ds ++ later)
is_fitting-append [] later h k = k
is_fitting-append (d ∷ ds) later h k = (h.0, is_fitting-append ds later h.1 k)

debt-suc : (p : Ref) (n : ℕ) (q : Ref) → debt p 1 q + debt p n q ≡ debt p (suc n) q
debt-suc ref_a n ref_a = omega arith
debt-suc ref_a n ref_b = refl
debt-suc ref_a n ref_c = refl
debt-suc ref_b n ref_a = refl
debt-suc ref_b n ref_b = omega arith
debt-suc ref_b n ref_c = refl
debt-suc ref_c n ref_a = refl
debt-suc ref_c n ref_b = refl
debt-suc ref_c n ref_c = omega arith

is_ref-eq : (c d : Ref) → is_ref c d ≡ true → c ≡ d
is_ref-eq ref_a ref_a h = refl
is_ref-eq ref_b ref_b h = refl
is_ref-eq ref_c ref_c h = refl
is_ref-eq ref_a ref_b h = absurd (cc h)
is_ref-eq ref_a ref_c h = absurd (cc h)
is_ref-eq ref_b ref_a h = absurd (cc h)
is_ref-eq ref_b ref_c h = absurd (cc h)
is_ref-eq ref_c ref_a h = absurd (cc h)
is_ref-eq ref_c ref_b h = absurd (cc h)

abbrev offer_to : Ref → Event → Ref → Offer Ref Ref
offer_to p e c = record { producer = p; event = e; consumer = c }

-- What one event is offered to, in the wiring of `main`.
record IsOffered (p : Ref) (ds : List (Offer Ref Ref)) : Type 0 where
  one : (q : Ref) → owed ds q ≡ debt p 1 q
  fitting : All is_fitting ds

module _ (r : EventRouter Ref Ref) (w : IsWired r) where
  subscribers-IsOffered :
      (p : Ref) (e : Event)
      → makes p e ≡ true
      → IsOffered p (map (offer_to p e) (subscribers (event_type e) r))
  unfolding owed
  subscribers-IsOffered ref_a (status_event t j) h =
      rw (w.status_to, subscribers) (record { one = λ q. omega arith; fitting = (refl, tt) })
  subscribers-IsOffered ref_a (serial_event d) h =
      rw (w.serial_to, subscribers)
        (record { one = λ q. omega arith; fitting = (refl, (refl, tt)) })
  subscribers-IsOffered ref_b (serial_event d) h =
      rw (w.serial_to, subscribers)
        (record { one = λ q. omega arith; fitting = (refl, (refl, tt)) })
  subscribers-IsOffered ref_c (control_event t j) h =
      rw (w.control_to, subscribers) (record { one = λ q. omega arith; fitting = (refl, tt) })
  subscribers-IsOffered ref_a (control_event t j) h = absurd (cc h)
  subscribers-IsOffered ref_b (control_event t j) h = absurd (cc h)
  subscribers-IsOffered ref_b (status_event t j) h = absurd (cc h)
  subscribers-IsOffered ref_c (status_event t j) h = absurd (cc h)
  subscribers-IsOffered ref_c (serial_event d) h = absurd (cc h)

  module _ {Q : Type 0} (lib : SpscQueue Event Q) where
    pub owed-offers :
        (p : Ref) (es : List Event) (q : Ref)
        → All (makes p) es
        → owed (offers (members lib) r p es) q ≡ debt p (length es) q
    unfolding offers owed
    owed-offers p [] q h = sym (debt_zero p q)
    owed-offers p (e ∷ es) q h =
        owed-append (map (offer_to p e) (subscribers (event_type e) r))
          (offers (members lib) r p es) q
        ∙ omega (
          arith,
          (subscribers-IsOffered p e h.0).one q,
          owed-offers p es q h.1,
          debt-suc p (length es) q,
        )

    pub offers-is_fitting :
        (p : Ref) (es : List Event)
        → All (makes p) es
        → All is_fitting (offers (members lib) r p es)
    unfolding offers
    offers-is_fitting p [] h = tt
    offers-is_fitting p (e ∷ es) h =
        is_fitting-append (map (offer_to p e) (subscribers (event_type e) r))
          (offers (members lib) r p es) (subscribers-IsOffered p e h.0).fitting
          (offers-is_fitting p es h.1)

module _ {Q : Type 0} (lib : SpscQueue Event Q) where
  -- Whom the router passes over.
  is_eligible_lem :
      (p c : Ref) (s : System Q) → HasIds s → is_eligible (members lib) p s c ≡ not (is_ref p c)
  is_eligible_lem ref_a ref_a s ids = ground (arith, ids ref_a)
  is_eligible_lem ref_a ref_b s ids = ground (arith, ids ref_a, ids ref_b)
  is_eligible_lem ref_a ref_c s ids = ground (arith, ids ref_a, ids ref_c)
  is_eligible_lem ref_b ref_a s ids = ground (arith, ids ref_b, ids ref_a)
  is_eligible_lem ref_b ref_b s ids = ground (arith, ids ref_b)
  is_eligible_lem ref_b ref_c s ids = ground (arith, ids ref_b, ids ref_c)
  is_eligible_lem ref_c ref_a s ids = ground (arith, ids ref_c, ids ref_a)
  is_eligible_lem ref_c ref_b s ids = ground (arith, ids ref_c, ids ref_b)
  is_eligible_lem ref_c ref_c s ids = ground (arith, ids ref_c)

  pub make_offer-Inv :
      {past : List Ref} (p c : Ref) (e : Event) (ds : List (Offer Ref Ref)) (s : System Q)
      → is_fitting (offer_to p e c) ≡ true
      → Inv lib past (owed (offer_to p e c ∷ ds)) s
      → Inv lib past (owed ds) (offer (members lib) p e c s)
  unfolding offer owed
  make_offer-Inv p c e ds s h v = elim (Bool-cases (is_ref p c)) [
    | inl own ↦ rw (is_eligible_lem p c s v.ids, own) (same-Inv lib s (λ q. ground (arith, own)) v)
    | inr others ↦
        let fits : is_ref c (receiver p e) ≡ true = ground (arith, others, h) in
        let made : makes p e ≡ true = ground (arith, others, h) in
        rw (is_eligible_lem p c s v.ids, others, is_ref-eq c (receiver p e) fits, clone-id e)
          (consume-Inv lib (owed ds) p e s made (same-Inv lib s (λ q. ground (arith, others)) v))
  ]
