-- ===== src/App12/Wiring.antt =====
-- The subscriptions that `main` sets up.
use poc_event_manager.Prelude.{
  ◌≡◌, refl, ◌∙◌, sym, subst, false, none, some, some-cancel, >>=-eq-some, [], ◌∷◌, ℤ, ◌==ℤ◌,
  minus_one, lookup, insert, arith,
}
use poc_event_manager.Queues.Spsc.{SpscQueue}
use poc_event_manager.App12.Events.{status, control, error, serial, Event, event_type_eq}
use poc_event_manager.App12.Router.{EventRouter, add_producer, add_consumer}
use poc_event_manager.App12.Managers.{will_consume_a, will_consume_b, will_consume_c}
use poc_event_manager.App12.Main.{
  Ref, ref_a, ref_b, ref_c, System, Controls, wire, producing, manager_of,
}

-- Who gets events of which type.
pub record IsWired (r : EventRouter Ref Ref) : Type 0 where
  pub status_to : lookup status r.consumers ≡ some (ref_c ∷ [])
  pub control_to : lookup control r.consumers ≡ some (ref_a ∷ [])
  pub serial_to : lookup serial r.consumers ≡ some (ref_a ∷ ref_b ∷ [])
  pub error_to : lookup error r.consumers ≡ none

abbrev consuming : EventRouter Ref Ref → EventRouter Ref Ref
consuming r =
    add_consumer will_consume_c ref_c
      (add_consumer will_consume_b ref_b (add_consumer will_consume_a ref_a r))

consuming-IsWired : (r : EventRouter Ref Ref) → r.consumers ≡ [] → IsWired (consuming r)
unfolding add_consumer lookup insert
consuming-IsWired r fresh =
    subst (λ (q : EventRouter Ref Ref). IsWired (consuming q))
      (λ i. record { fd = r.fd; producers = r.producers; consumers = sym fresh i })
      (record { status_to = refl; control_to = refl; serial_to = refl; error_to = refl })

module _ {Q : Type 0} (lib : SpscQueue Event Q) where
  producing-consumers :
      (ctl : ℤ) (p : Ref) (s : System Q) (r r' : EventRouter Ref Ref)
      → producing lib ctl p s r ≡ some r'
      → r'.consumers ≡ r.consumers
  unfolding producing add_producer
  producing-consumers ctl p s r r' h = ground arith

  -- Whatever epoll_ctl and the map of producers give, if no AddProducer throws then the calls of
  -- AddConsumer leave each type with its subscribers in order: STATUS with ManagerC, CONTROL with
  -- ManagerA, SERIAL with ManagerA and ManagerB, and nobody for ERROR.
  pub wire-IsWired :
      (ctls : Controls) (s : System Q) (r r' : EventRouter Ref Ref)
      → r.consumers ≡ []
      → wire lib ctls s r ≡ some r'
      → IsWired r'
  unfolding wire
  wire-IsWired ctls s r r' fresh h =
      let (r1, e1, h1) = >>=-eq-some (producing lib ctls.ctl_a ref_a s r) _ h in
      let (r2, e2, h2) = >>=-eq-some (producing lib ctls.ctl_b ref_b s r1) _ h1 in
      let (r3, e3, h3) = >>=-eq-some (producing lib ctls.ctl_c ref_c s r2) _ h2 in
      subst IsWired (some-cancel h3) (
        consuming-IsWired r3 (
          producing-consumers ctls.ctl_c ref_c s r2 r3 e3
          ∙ producing-consumers ctls.ctl_b ref_b s r1 r2 e2
          ∙ producing-consumers ctls.ctl_a ref_a s r r1 e1
          ∙ fresh))

  producing_total :
      (ctl : ℤ) (p : Ref) (s : System Q) (r : EventRouter Ref Ref)
      → (ctl ==ℤ minus_one) ≡ false
      → (r' : EventRouter Ref Ref) × (producing lib ctl p s r ≡ some r')
  unfolding producing add_producer
  producing_total ctl p s r h = ((add_producer ctl (manager_of p s).tx_event.source p r).0, rw h)

  -- None of the calls throws where epoll_ctl does not return -1.
  pub wire_total :
      (ctls : Controls) (s : System Q) (r : EventRouter Ref Ref)
      → (ctls.ctl_a ==ℤ minus_one) ≡ false
      → (ctls.ctl_b ==ℤ minus_one) ≡ false
      → (ctls.ctl_c ==ℤ minus_one) ≡ false
      → (r' : EventRouter Ref Ref) × (wire lib ctls s r ≡ some r')
  unfolding wire
  wire_total ctls s r a b c =
      let (r1, e1) = producing_total ctls.ctl_a ref_a s r a in
      let (r2, e2) = producing_total ctls.ctl_b ref_b s r1 b in
      let (r3, e3) = producing_total ctls.ctl_c ref_c s r2 c in (consuming r3, rw (e1, e2, e3))
