-- ===== src/App12/Deliveries.antt =====
-- What routing means: a list of deliveries, made one after the other.
use poc_event_manager.Prelude.{
  ◌≡◌, refl, ◌∙◌, sym, Bool, ◌&&◌, not, List, [], ◌∷◌, ◌++◌, map, ◌==ℤ◌, lookup, select, inl, inr,
  Option-cases, Bool-cases,
}
use poc_event_manager.App12.Events.{Event, event_type, clone, event_type_eq}
use poc_event_manager.App12.Router.{
  EventRouter, Members, subscribers, offer, offer_all, route_event, route_events,
}

-- `Clone` gives an equal event: type, target and payload.
pub clone-id : (e : Event) → clone e ≡ e
unfolding clone
clone-id (Event.status_event t j) = refl
clone-id (Event.control_event t j) = refl
clone-id (Event.serial_event d) = refl

module _ {P C S : Type 0} (members : Members P C S) where
  open members use {objects, producer_id, consumer_id}
  open objects use {lock_consumer, consume}

  -- The consumer exists, and is not the producer itself.
  abbrev pub is_eligible : P → S → C → Bool
  is_eligible p s c = lock_consumer c s && not (consumer_id c s ==ℤ producer_id p s)

  -- Who gets what: each event in turn, to each eligible subscriber of its type in order of
  -- subscription.
  abbrev pub deliveries : EventRouter P C → P → S → List Event → List (C × Event)
  deliveries r p s [] = []
  deliveries r p s (e ∷ es) =
      map (λ c. (c, e)) (select (is_eligible p s) (subscribers (event_type e) r))
      ++ deliveries r p s es

  abbrev pub deliver : List (C × Event) → S → S
  deliver [] s = s
  deliver ((c, e) ∷ ds) s = deliver ds (consume c e s)

  deliver-append :
      (ds ds' : List (C × Event)) (s : S) → deliver (ds ++ ds') s ≡ deliver ds' (deliver ds s)
  deliver-append [] ds' s = refl
  deliver-append ((c, e) ∷ ds) ds' s = deliver-append ds ds' (consume c e s)

  -- Consuming an event changes neither who is alive nor anybody's number.
  pub record IsStable : Type 0 where
    pub eligible_kept :
        (p : P) (c : C) (e : Event) (s : S) (d : C)
        → is_eligible p (consume c e s) d ≡ is_eligible p s d

  module _ (stable : IsStable) where
    open stable use {eligible_kept}

    offer_all-deliver :
        (p : P) (e : Event) (cs : List C) (s s0 : S)
        → ((d : C) → is_eligible p s d ≡ is_eligible p s0 d)
        → offer_all members p e cs s ≡ deliver (map (λ c. (c, e)) (select (is_eligible p s0) cs)) s
    unfolding offer_all offer
    offer_all-deliver p e [] s s0 same = refl
    offer_all-deliver p e (c ∷ cs) s s0 same = elim (Bool-cases (is_eligible p s0 c)) [
      | inl fits ↦
          rw (same c ∙ fits, fits, clone-id)
            (offer_all-deliver p e cs (consume c e s) s0 (λ d. eligible_kept p c e s d ∙ same d))
      | inr unfit ↦ rw (same c ∙ unfit, unfit) (offer_all-deliver p e cs s s0 same)
    ]

    route_event-deliver :
        (r : EventRouter P C) (p : P) (e : Event) (s s0 : S)
        → ((d : C) → is_eligible p s d ≡ is_eligible p s0 d)
        → route_event members r p e s
          ≡ deliver (map (λ c. (c, e)) (select (is_eligible p s0) (subscribers (event_type e) r))) s
    unfolding route_event
    route_event-deliver r p e s s0 same = elim (Option-cases (lookup (event_type e) r.consumers)) [
      | inl missing ↦ rw (missing, route_event, subscribers)
      | inr (cs, found) ↦ rw (found, route_event, subscribers) (offer_all-deliver p e cs s s0 same)
    ]

    eligible-deliver :
        (p : P) (ds : List (C × Event)) (s : S) (d : C)
        → is_eligible p (deliver ds s) d ≡ is_eligible p s d
    eligible-deliver p [] s d = refl
    eligible-deliver p ((c, e) ∷ ds) s d =
        eligible-deliver p ds (consume c e s) d ∙ eligible_kept p c e s d

    route_events-from :
        (r : EventRouter P C) (p : P) (es : List Event) (s s0 : S)
        → ((d : C) → is_eligible p s d ≡ is_eligible p s0 d)
        → route_events members r p es s ≡ deliver (deliveries r p s0 es) s
    unfolding route_events
    route_events-from r p [] s s0 same = refl
    route_events-from r p (e ∷ es) s s0 same =
        let ds = map (λ c. (c, e)) (select (is_eligible p s0) (subscribers (event_type e) r)) in
        rw (route_event-deliver r p e s s0 same) (
          route_events-from r p es (deliver ds s) s0 (λ d. eligible-deliver p ds s d ∙ same d)
          ∙ sym (deliver-append ds (deliveries r p s0 es) s))

    -- Routing what a producer made is: for each event in order, an equal copy to each subscriber of
    -- its type in order of subscription, but not to one that is gone, nor to the producer itself.
    -- This holds where consuming changes neither who is alive nor anybody's number.
    pub route_events-deliveries :
        (r : EventRouter P C) (p : P) (es : List Event) (s : S)
        → route_events members r p es s ≡ deliver (deliveries r p s es) s
    route_events-deliveries r p es s = route_events-from r p es s s (λ d. refl)
