-- ===== src/App12/Starting.antt =====
-- app12.cpp: what `main` has built when its loop begins.
use poc_event_manager.Prelude.{
  All, ◌+◌, ◌≡◌, refl, ap, sym, subst, false, some, [], ℤ, ◌==ℤ◌, minus_one, arith, length,
}
use poc_event_manager.PipedEvent.Defs.{PipedEvent, construct as construct_event}
use poc_event_manager.Queues.Spsc.{SpscQueue}
use poc_event_manager.App12.Events.{Event}
use poc_event_manager.App12.Router.{EventRouter, construct}
use poc_event_manager.App12.Managers.{max_queue_size}
use poc_event_manager.App12.Main.{
  Ref, ref_a, ref_b, ref_c, System, Controls, manager_of, assemble, build, start,
}
use poc_event_manager.App12.Wiring.{IsWired, wire_total, wire-IsWired}
use poc_event_manager.App12.Routing.{makes, accepts, id_of}
use poc_event_manager.App12.Effects.{arrived, Inv, same-Inv}
use poc_event_manager.App12.Owing.{owed}
use poc_event_manager.App12.Keeping.{Routed}

abbrev new_event : ℤ × ℤ → PipedEvent
new_event fds = record { source = fds.0; sink = fds.1; fired = false; log = [] }

module _ {Q : Type 0} (lib : SpscQueue Event Q) where
  open lib use {contents, make_empty}

  assemble-Inv : (ea eb ec : PipedEvent) → Inv lib [] (λ q. 0) (assemble lib ea eb ec)
  unfolding assemble
  assemble-Inv ea eb ec = record {
    ids = ids;
    flow = flow;
    accounted = accounted;
    received = received;
    made = made;
    taken = taken;
  }
    where
      ids : (q : Ref) → (manager_of q (assemble lib ea eb ec)).auto_id.id ≡ id_of q
      ids ref_a = refl
      ids ref_b = refl
      ids ref_c = refl

      flow :
          (q : Ref)
          → (manager_of q (assemble lib ea eb ec)).counters.tx
            ≡ arrived q (assemble lib ea eb ec)
              + 0
              + length (contents (manager_of q (assemble lib ea eb ec)).tx_queue)
      flow ref_a = omega (arith, ap length (make_empty max_queue_size))
      flow ref_b = omega (arith, ap length (make_empty max_queue_size))
      flow ref_c = omega (arith, ap length (make_empty max_queue_size))

      accounted :
          (q : Ref)
          → (manager_of q (assemble lib ea eb ec)).counters.tx
              + (manager_of q (assemble lib ea eb ec)).counters.dropped
            ≡ 0
      accounted ref_a = refl
      accounted ref_b = refl
      accounted ref_c = refl

      received :
          (q : Ref)
          → (manager_of q (assemble lib ea eb ec)).counters.rx
            ≡ length (manager_of q (assemble lib ea eb ec)).consumed
      received ref_a = refl
      received ref_b = refl
      received ref_c = refl

      made : (q : Ref) → All (makes q) (contents (manager_of q (assemble lib ea eb ec)).tx_queue)
      made ref_a = subst (All (makes ref_a)) (sym (make_empty max_queue_size)) tt
      made ref_b = subst (All (makes ref_b)) (sym (make_empty max_queue_size)) tt
      made ref_c = subst (All (makes ref_c)) (sym (make_empty max_queue_size)) tt

      taken : (q : Ref) → All (accepts q) (manager_of q (assemble lib ea eb ec)).consumed
      taken ref_a = tt
      taken ref_b = tt
      taken ref_c = tt

  -- What `main` has built when its loop begins.
  abbrev pub built : ℤ × ℤ → ℤ × ℤ → ℤ × ℤ → System Q
  built fds_a fds_b fds_c = assemble lib (new_event fds_a) (new_event fds_b) (new_event fds_c)

  pub start_total :
      (fds_a fds_b fds_c : ℤ × ℤ) (created : ℤ) (ctls : Controls)
      → (created ==ℤ minus_one) ≡ false
      → (ctls.ctl_a ==ℤ minus_one) ≡ false
      → (ctls.ctl_b ==ℤ minus_one) ≡ false
      → (ctls.ctl_c ==ℤ minus_one) ≡ false
      → (r : EventRouter Ref Ref) × (start lib (some fds_a) (some fds_b) (some fds_c) created ctls
          ≡ some (built fds_a fds_b fds_c, r))
        × IsWired r
  unfolding start build construct_event construct
  start_total (sa, ka) (sb, kb) (sc, kc) created ctls h a b c =
      let s = built (sa, ka) (sb, kb) (sc, kc) in
      let r0 : EventRouter Ref Ref = record { fd = created; producers = []; consumers = [] } in
      let (r, wired) = wire_total lib ctls s r0 a b c in
      (r, rw (h, wired) refl, wire-IsWired lib ctls s r0 r refl wired)

  pub built-Routed : (fds_a fds_b fds_c : ℤ × ℤ) → Routed lib [] [] (built fds_a fds_b fds_c)
  unfolding owed
  built-Routed fds_a fds_b fds_c = record {
    inv =
        same-Inv lib (built fds_a fds_b fds_c) (λ q. refl)
          (assemble-Inv (new_event fds_a) (new_event fds_b) (new_event fds_c));
    fitting = tt;
  }
