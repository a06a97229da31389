-- ===== src/App12/Routing.antt =====
-- Where each manager's events go.
use mathlib.Core.Path.{ap₂}
use poc_event_manager.Prelude.{
  All, ◌==ℤ◌, ℕ, ◌≡◌, refl, ◌∙◌, ap, Bool, true, false, not, List, [], ◌∷◌, map, select, arith,
}
use poc_event_manager.AutoId.Defs.{get_auto_id}
use poc_event_manager.Queues.Spsc.{SpscQueue}
use poc_event_manager.App12.Events.{
  Event, status_event, control_event, serial_event, event_type, event_type_eq,
}
use poc_event_manager.App12.Router.{EventRouter, subscribers, route_events}
use poc_event_manager.App12.Deliveries.{
  is_eligible, deliveries, deliver, IsStable, route_events-deliveries,
}
use poc_event_manager.App12.Managers.{consume_event}
use poc_event_manager.App12.Main.{
  Ref, ref_a, ref_b, ref_c, System, manager_of, with_manager-all, members,
}
use poc_event_manager.App12.Wiring.{IsWired}

-- What _runImpl of each class sends.
abbrev pub makes : Ref → Event → Bool
makes ref_a (status_event _ _) = true
makes ref_a (serial_event _) = true
makes ref_b (serial_event _) = true
makes ref_c (control_event _ _) = true
makes _ _ = false

-- What each class says it consumes.
abbrev pub accepts : Ref → Event → Bool
accepts ref_a (control_event _ _) = true
accepts ref_a (serial_event _) = true
accepts ref_b (serial_event _) = true
accepts ref_c (status_event _ _) = true
accepts _ _ = false

abbrev pub receiver : Ref → Event → Ref
receiver p (status_event _ _) = ref_c
receiver p (control_event _ _) = ref_a
receiver ref_a (serial_event _) = ref_b
receiver ref_b (serial_event _) = ref_a
receiver ref_c (serial_event _) = ref_a

abbrev pub id_of : Ref → ℕ
id_of ref_a = 0
id_of ref_b = 1
id_of ref_c = 2

abbrev pub HasIds : {Q : Type 0} → System Q → Type 0
HasIds s = (p : Ref) → (manager_of p s).auto_id.id ≡ id_of p

pub accepts-receiver : (p : Ref) (e : Event) → makes p e ≡ true → accepts (receiver p e) e ≡ true
accepts-receiver ref_a (status_event t j) h = refl
accepts-receiver ref_a (control_event t j) h = cc
accepts-receiver ref_a (serial_event d) h = refl
accepts-receiver ref_b (status_event t j) h = cc
accepts-receiver ref_b (control_event t j) h = cc
accepts-receiver ref_b (serial_event d) h = refl
accepts-receiver ref_c (status_event t j) h = cc
accepts-receiver ref_c (control_event t j) h = refl
accepts-receiver ref_c (serial_event d) h = cc

module _ {Q : Type 0} (lib : SpscQueue Event Q) where
  auto_id-consume :
      (c : Ref) (e : Event) (s : System Q) (d : Ref)
      → (manager_of d ((members lib).objects.consume c e s)).auto_id ≡ (manager_of d s).auto_id
  unfolding consume_event
  auto_id-consume c e s =
      with_manager-all (λ d m. m.auto_id ≡ (manager_of d s).auto_id) c
        (consume_event lib e (manager_of c s)) s refl (λ d. refl)

  pub members-IsStable : IsStable (members lib)
  members-IsStable = record {
    eligible_kept = λ p c e s d.
        ap₂ (λ x y. not (get_auto_id x ==ℤ get_auto_id y)) (auto_id-consume c e s d)
          (auto_id-consume c e s p);
  }

  one_receiver :
      (r : EventRouter Ref Ref) (s : System Q) (p : Ref) (e : Event)
      → IsWired r
      → HasIds s
      → makes p e ≡ true
      → select (is_eligible (members lib) p s) (subscribers (event_type e) r) ≡ receiver p e ∷ []
  one_receiver r s ref_a (status_event t j) w ids h =
      rw (w.status_to, subscribers) (ground (arith, ids ref_a, ids ref_b, ids ref_c))
  one_receiver r s ref_a (control_event t j) w ids h = cc
  one_receiver r s ref_a (serial_event d) w ids h =
      rw (w.serial_to, subscribers) (ground (arith, ids ref_a, ids ref_b, ids ref_c))
  one_receiver r s ref_b (status_event t j) w ids h = cc
  one_receiver r s ref_b (control_event t j) w ids h = cc
  one_receiver r s ref_b (serial_event d) w ids h =
      rw (w.serial_to, subscribers) (ground (arith, ids ref_a, ids ref_b, ids ref_c))
  one_receiver r s ref_c (status_event t j) w ids h = cc
  one_receiver r s ref_c (control_event t j) w ids h =
      rw (w.control_to, subscribers) (ground (arith, ids ref_a, ids ref_b, ids ref_c))
  one_receiver r s ref_c (serial_event d) w ids h = cc

  deliveries-receiver :
      (r : EventRouter Ref Ref) (s : System Q) (p : Ref) (es : List Event)
      → IsWired r
      → HasIds s
      → All (makes p) es
      → deliveries (members lib) r p s es ≡ map (λ e. (receiver p e, e)) es
  deliveries-receiver r s p [] w ids h = refl
  deliveries-receiver r s p (e ∷ es) w ids h =
      rw (one_receiver r s p e w ids h.0, deliveries-receiver r s p es w ids h.1)

  -- In the wiring of `main`, events that a manager makes reach exactly one manager each, in order
  -- and unchanged: STATUS goes to ManagerC, CONTROL to ManagerA, and SERIAL to the one of ManagerA
  -- and ManagerB that did not send it.
  pub route_events-receiver :
      (r : EventRouter Ref Ref) (s : System Q) (p : Ref) (es : List Event)
      → IsWired r
      → HasIds s
      → All (makes p) es
      → route_events (members lib) r p es s
        ≡ deliver (members lib) (map (λ e. (receiver p e, e)) es) s
  route_events-receiver r s p es w ids h =
      route_events-deliveries (members lib) members-IsStable r p es s
      ∙ ap (λ ds. deliver (members lib) ds s) (deliveries-receiver r s p es w ids h)
