-- ===== src/SelfLoop/Transfer.antt =====
-- The main loop of app1.cpp and its likes, call by call: what is delivered, and a property of the
-- manager together.
use poc_event_manager.Prelude.{
  false, some, ◌>>=◌, List, [], ◌∷◌, ◌++◌, map, ℤ, ◌≡◌, ◌∙◌, sym, subst, some-cancel, ◌==ℤ◌,
  minus_one,
}
use poc_event_manager.Event.{Event}
use poc_event_manager.Counters.{zero_counters}
use poc_event_manager.Delivery.{IsDelivered}
use poc_event_manager.Manager.Interface.{IManager, IsConserving, consume1}
use poc_event_manager.SelfLoop.Defs.{Turn, Program, start, run}
use poc_event_manager.SelfLoop.Interleaved.{Move, Moment, main_of, Commutes}
use poc_event_manager.SelfLoop.Settling.{main-transfer}
use poc_event_manager.SelfLoop.Calls.{moves-IsDelivered}

module _ {In M : Type 0} (ops : IManager In Event M) where
  -- A property that shows after Consume, and does not depend on what Consume changes.
  unconsumed :
      (P : M → Type 0)
      → ((e : Event) (m : M) → P (ops.consume e m) → P m)
      → (es : List Event) (m : M) → P (consume1 ops es m)
      → P m
  unfolding consume1
  unconsumed P blind [] m h = h
  unconsumed P blind (e ∷ es) m h = blind e m (unconsumed P blind es (ops.consume e m) h)

  pub calls_lem :
      (laws : IsConserving ops) (P : M → Type 0)
      → Commutes ops
      → ((e : Event) (m : M) → P (ops.consume e m) → P m)
      → (created ctl : ℤ) (m : M) → (created ==ℤ minus_one) ≡ false
      → laws.IsValid m
      → laws.queued m ≡ []
      → laws.counters m ≡ zero_counters
      → ((ts : List (Turn In))
          → (p : Program M) × ((start ops created ctl m >>= run ops ts) ≡ some p) × P p.manager)
      → (acts : List (Move In))
      → (s : Moment In M) × (main_of ops (some m) created ctl acts ≡ some s)
        × IsDelivered
            (map laws.offers s.called)
            s.consumed
            (s.waiting ++ laws.queued s.manager)
            (laws.counters s.manager)
        × P s.manager
  calls_lem laws P c blind created ctl m h v q k whole acts =
      let (s, e, d) = moves-IsDelivered ops laws created ctl m acts h v q k in
      let (t, e', pr) =
        main-transfer ops c (some m) created ctl (λ called p. P p.manager) whole acts in
      (
        s,
        e,
        d,
        subst (λ x. P x.manager) (some-cancel (sym e' ∙ e))
            (unconsumed P blind t.waiting t.manager pr),
      )
