-- ===== src/App12/Keeping.antt =====
-- What the calls of the loop and of the threads keep.
use poc_event_manager.Prelude.{
  All, ◌≡◌, refl, sym, some, List, [], ℤ, lookup, inl, inr, Option-cases, int_eq,
}
use poc_event_manager.Queues.Spsc.{SpscQueue}
use poc_event_manager.Loop.Keeping.{IsKeptByCalls}
use poc_event_manager.App12.Events.{Event}
use poc_event_manager.App12.Router.{EventRouter}
use poc_event_manager.App12.Main.{Ref, System, manager_of, with_manager, members, run_thread}
use poc_event_manager.App12.Offers.{Offer, offers, take_producer, take_fd}
use poc_event_manager.App12.Calls.{machine}
use poc_event_manager.App12.Wiring.{IsWired}
use poc_event_manager.App12.Effects.{Inv, same-Inv}
use poc_event_manager.App12.Emptying.{produce_total, with_manager-Inv}
use poc_event_manager.App12.Sending.{run_thread-Inv}
use poc_event_manager.App12.Owing.{owed, is_fitting, owed-offers, offers-is_fitting, make_offer-Inv}

module _ {Q : Type 0} (lib : SpscQueue Event Q) where
  open lib use {contents}

  pub record Routed (ds : List (Offer Ref Ref)) (past : List Ref) (s : System Q) : Type 0 where
    pub inv : Inv lib past (owed ds) s
    pub fitting : All is_fitting ds

  module _ (r : EventRouter Ref Ref) (w : IsWired r) where
    take-Routed :
        (fd : ℤ) (past : List Ref) (s : System Q)
        → Routed [] past s
        → (ds : List (Offer Ref Ref)) × (s' : System Q) × (take_fd (members lib) r fd s
            ≡ some (ds, s'))
          × Routed ds past s'
    unfolding take_fd take_producer owed
    take-Routed fd past s v = elim (Option-cases (lookup fd r.producers)) [
      | inl e ↦ ([], s, rw (e, take_fd), v)
      | inr (p, e) ↦
          let es = contents (manager_of p s).tx_queue in
          let (m', made, x) = produce_total lib (manager_of p s) in
          (
            offers (members lib) r p es,
            with_manager p m' s,
            rw (e, take_fd, made) refl,
            record {
              inv =
                  same-Inv lib (with_manager p m' s)
                    (λ q. sym (owed-offers r w lib p es q (v.inv.made p)))
                    (with_manager-Inv lib p m' s x (same-Inv lib s (λ q. refl) v.inv));
              fitting = offers-is_fitting r w lib p es (v.inv.made p);
            },
          )
    ]

    pub Routed-kept : IsKeptByCalls (machine lib r) Routed
    Routed-kept = record {
      run_keeps = λ who ds past s v. (
        run_thread lib who s,
        refl,
        record { inv = run_thread-Inv lib (owed ds) who s v.inv; fitting = v.fitting },
      );
      take_keeps = λ result fd past s v. take-Routed fd past s v;
      deliver_keeps = λ d ds past s v. record {
        inv = make_offer-Inv lib d.producer d.consumer d.event ds s v.fitting.0 v.inv;
        fitting = v.fitting.1;
      };
    }
