-- ===== src/App12/Offers.antt =====
-- A report in WaitAndRoute of app12.cpp, call by call: Produce, and then each event is offered to
-- each consumer of its type.
use poc_event_manager.Prelude.{
  Option, none, some, ◌>>=◌, List, [], ◌∷◌, ◌++◌, map, ℤ, ◌≡◌, refl, ◌∙◌, lookup, int_eq,
  if◌then◌else◌, Option-cases, Bool-cases, inl, inr,
}
use poc_event_manager.Loop.Defs.{deliver_all}
use poc_event_manager.App12.Events.{Event, event_type, event_type_eq}
use poc_event_manager.App12.Router.{
  EventRouter, Members, subscribers, offer, offer_all, route_event, route_events, route_producer,
  route_fd,
}

-- A round of the innermost loop: whose event is offered to whom.
pub record Offer (P C : Type 0) : Type 0 where
  pub producer : P
  pub event : Event
  pub consumer : C

module _ {P C S : Type 0} (members : Members P C S) where
  open members use {objects}
  open objects use {lock_producer, produce}

  abbrev pub make_offer : Offer P C → S → S
  make_offer d s = offer members d.producer d.event d.consumer s

  abbrev offer_to : P → Event → C → Offer P C
  offer_to p e c = record { producer = p; event = e; consumer = c }

  -- The rounds of the two inner loops.
  unfoldable pub offers : EventRouter P C → P → List Event → List (Offer P C)
  offers r p [] = []
  offers r p (e ∷ es) = map (offer_to p e) (subscribers (event_type e) r) ++ offers r p es

  -- What is done with a report up to the first round of those loops.
  unfoldable pub take_producer : EventRouter P C → P → S → Option (List (Offer P C) × S)
  unfolding offers
  take_producer r p s =
      if lock_producer p s
      then produce p s >>= (λ made. some (offers r p made.0, made.1))
      else some ([], s)

  unfoldable pub take_fd : EventRouter P C → ℤ → S → Option (List (Offer P C) × S)
  unfolding take_producer
  take_fd r fd s = elim (lookup fd r.producers) [
    | none ↦ some ([], s)
    | some p ↦ take_producer r p s
  ]

  deliver_all-append :
      (ds later : List (Offer P C)) (s : S)
      → deliver_all make_offer (ds ++ later) s
        ≡ deliver_all make_offer later (deliver_all make_offer ds s)
  unfolding deliver_all
  deliver_all-append [] later s = refl
  deliver_all-append (d ∷ ds) later s = deliver_all-append ds later (make_offer d s)

  deliver_all-offer_all :
      (p : P) (e : Event) (cs : List C) (s : S)
      → deliver_all make_offer (map (offer_to p e) cs) s ≡ offer_all members p e cs s
  unfolding deliver_all offer_all
  deliver_all-offer_all p e [] s = refl
  deliver_all-offer_all p e (c ∷ cs) s = deliver_all-offer_all p e cs (offer members p e c s)

  deliver_all-route_event :
      (r : EventRouter P C) (p : P) (e : Event) (s : S)
      → deliver_all make_offer (map (offer_to p e) (subscribers (event_type e) r)) s
        ≡ route_event members r p e s
  unfolding route_event deliver_all
  deliver_all-route_event r p e s = elim (Option-cases (lookup (event_type e) r.consumers)) [
    | inl missing ↦ rw (missing, route_event, subscribers)
    | inr (cs, found) ↦ rw (found, route_event, subscribers) (deliver_all-offer_all p e cs s)
  ]

  deliver_all-route_events :
      (r : EventRouter P C) (p : P) (es : List Event) (s : S)
      → deliver_all make_offer (offers r p es) s ≡ route_events members r p es s
  unfolding offers route_events deliver_all
  deliver_all-route_events r p [] s = refl
  deliver_all-route_events r p (e ∷ es) s =
      deliver_all-append (map (offer_to p e) (subscribers (event_type e) r)) (offers r p es) s
      ∙ (rw (deliver_all-route_event r p e s)
          (deliver_all-route_events r p es (route_event members r p e s)))

  take_producer_lem :
      (r : EventRouter P C) (p : P) (s : S)
      → (take_producer r p s >>= (λ k. some (deliver_all make_offer k.0 k.1)))
        ≡ route_producer members r p s
  unfolding take_producer route_producer deliver_all
  take_producer_lem r p s = elim (Bool-cases (lock_producer p s)) [
    | inl e ↦ elim (Option-cases (produce p s)) [
      | inl f ↦ rw (e, f) refl
      | inr ((es, s'), f) ↦ rw (e, f, deliver_all-route_events r p es s') refl
    ]
    | inr e ↦ rw e refl
  ]

  pub take_fd-route_fd :
      (r : EventRouter P C) (fd : ℤ) (s : S)
      → (take_fd r fd s >>= (λ k. some (deliver_all make_offer k.0 k.1))) ≡ route_fd members r fd s
  unfolding take_fd route_fd deliver_all
  take_fd-route_fd r fd s = elim (Option-cases (lookup fd r.producers)) [
    | inl e ↦ rw (e, take_fd, route_fd) refl
    | inr (p, e) ↦ rw (e, take_fd, route_fd) (take_producer_lem r p s)
  ]
