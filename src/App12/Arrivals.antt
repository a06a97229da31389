-- ===== src/App12/Arrivals.antt =====
-- app12.cpp: the whole program, wherever threads and signals come between the calls of `main`.
use poc_event_manager.Prelude.{
  All, count_if, ◌+◌, ◌≡◌, false, some, List, ℤ, ◌==ℤ◌, minus_one, length,
}
use poc_event_manager.Queues.Spsc.{SpscQueue}
use poc_event_manager.Loop.Calls.{Move, Moment}
use poc_event_manager.Loop.Keeping.{moves-keeps}
use poc_event_manager.App12.Events.{Event}
use poc_event_manager.App12.Main.{Ref, System, Controls, manager_of}
use poc_event_manager.App12.Routing.{accepts}
use poc_event_manager.App12.Effects.{arrived, is_ref}
use poc_event_manager.App12.Offers.{Offer}
use poc_event_manager.App12.Owing.{owed}
use poc_event_manager.App12.Keeping.{Routed, Routed-kept}
use poc_event_manager.App12.Starting.{built, start_total, built-Routed}
use poc_event_manager.App12.Calls.{Wait, machine, main}

module _ {Q : Type 0} (lib : SpscQueue Event Q) where
  open lib use {contents}

  -- With a queue that keeps its documented promises, and where no system call of the start fails:
  -- the program runs with no fault wherever the threads' calls of _runImpl and the signals come
  -- between the calls of `main`: Produce, and the offer of an event to one consumer. What a manager
  -- counted as sent is what waits in its queue, what Produce returned and is owed to others by the
  -- offers that are left, and what arrived: of ManagerA, the events that ManagerC and ManagerB
  -- consumed; of ManagerB, the SERIAL events that ManagerA consumed; of ManagerC, the CONTROL events
  -- that ManagerA consumed. What a manager counted as received is what it consumed, and that is of
  -- the types that it asked for. What a manager counted as sent or as dropped is as many as the
  -- calls of _runImpl by its thread.
  pub calls-route :
      (fds_a fds_b fds_c : ℤ × ℤ) (created : ℤ) (ctls : Controls) (acts : List (Move Ref Wait))
      → (created ==ℤ minus_one) ≡ false
      → (ctls.ctl_a ==ℤ minus_one) ≡ false
      → (ctls.ctl_b ==ℤ minus_one) ≡ false
      → (ctls.ctl_c ==ℤ minus_one) ≡ false
      → (m : Moment Ref (Offer Ref Ref) (System Q)) × (main lib
            (some fds_a)
            (some fds_b)
            (some fds_c)
            created
            ctls
            acts
          ≡ some m)
        × ((q : Ref)
            → (manager_of q m.system).counters.tx
              ≡ arrived q m.system
                + owed m.waiting q
                + length (contents (manager_of q m.system).tx_queue))
        × ((q : Ref)
            → (manager_of q m.system).counters.tx + (manager_of q m.system).counters.dropped
              ≡ count_if (is_ref q) m.called)
        × ((q : Ref)
            → (manager_of q m.system).counters.rx ≡ length (manager_of q m.system).consumed)
        × ((q : Ref) → All (accepts q) (manager_of q m.system).consumed)
  unfolding main
  calls-route fds_a fds_b fds_c created ctls acts h a b c =
      let (r, started, w) = start_total lib fds_a fds_b fds_c created ctls h a b c in
      let (m, e, v) =
        moves-keeps (machine lib r) (Routed lib) (Routed-kept lib r w) acts
          (built lib fds_a fds_b fds_c) (built-Routed lib fds_a fds_b fds_c) in
      (m, rw started e, v.inv.flow, v.inv.accounted, v.inv.received, v.inv.taken)
