-- ===== src/Prometheus/Counting.antt =====
-- The calls of IncrementCounter (inc/IPrometheus.h) by several managers on one server.
use native.Mathlib.Decide.{ℕ_discrete}
use Prim.Native.String.{String}
use poc_event_manager.Prelude.{
  ℕ, ◌+◌, ◌==◌, ltb, ◌≡◌, ◌≢◌, refl, sym, ap, ◌∙◌, true, some, some-cancel, ◌>>=◌, List, [], ◌∷◌,
  get_elem?, length, arith, All, get_elem?_total, Bool-cases, inl, inr,
}
use poc_event_manager.Counters.{zero_counters}
use poc_event_manager.Prometheus.Interface.{IPrometheus, IsCounting}
use poc_event_manager.Prometheus.Names.{metric_name-injective}
use poc_event_manager.Prometheus.Metrics.{
  Kind, received, sent, dropped, Metrics, metric_name, counter_of, count,
}
use poc_event_manager.Prometheus.Registering.{Shows}
use poc_event_manager.Prometheus.Metering.{
  bump, amount, tally, run_all, count_all, AreGood, Metered, run_all_lem,
}

kind-discrete : Discrete Kind
kind-discrete = hlevel

bumped : (k : Kind) → amount k (bump k zero_counters) ≡ 1
bumped received = refl
bumped sent = refl
bumped dropped = refl

amount_zero : (k : Kind) → amount k zero_counters ≡ 0
amount_zero received = refl
amount_zero sent = refl
amount_zero dropped = refl

amount_nil : (i : ℕ) (k : Kind) → amount k (tally i []) ≡ 0
unfolding tally
amount_nil i k = amount_zero k

unbumped : (k l : Kind) → k ≢ l → amount k (bump l zero_counters) ≡ 0
unbumped received received ne = absurd (ne refl)
unbumped sent sent ne = absurd (ne refl)
unbumped dropped dropped ne = absurd (ne refl)
unbumped received sent ne = refl
unbumped received dropped ne = refl
unbumped sent received ne = refl
unbumped sent dropped ne = refl
unbumped dropped received ne = refl
unbumped dropped sent ne = refl

-- The first call counts on its own.
amount-tally :
    (i j : ℕ) (k l : Kind) (cs : List (ℕ × Kind))
    → amount k (tally i ((j, l) ∷ cs)) ≡ amount k (tally i ((j, l) ∷ [])) + amount k (tally i cs)
unfolding tally
amount-tally i j received received cs = ground arith
amount-tally i j received sent cs = ground arith
amount-tally i j received dropped cs = ground arith
amount-tally i j sent received cs = ground arith
amount-tally i j sent sent cs = ground arith
amount-tally i j sent dropped cs = ground arith
amount-tally i j dropped received cs = ground arith
amount-tally i j dropped sent cs = ground arith
amount-tally i j dropped dropped cs = ground arith

both_discrete : (i j : ℕ) (k l : Kind) → Dec ((i ≡ j) × (k ≡ l))
both_discrete i j k l = elim (ℕ_discrete i j) [
  | yes e ↦ elim (kind-discrete k l) [ yes f ↦ yes (e, f) | no ne ↦ no (λ q. ne q.1) ]
  | no ne ↦ no (λ q. ne q.0)
]

once_self : (i j : ℕ) (k l : Kind) → i ≡ j → k ≡ l → amount k (tally i ((j, l) ∷ [])) ≡ 1
unfolding tally
once_self i j k l e f = rw (e, f) (ground (arith, bumped l))

once_other : (i j : ℕ) (k l : Kind) → ((i ≡ j) × (k ≡ l) → ⊥) → amount k (tally i ((j, l) ∷ [])) ≡ 0
unfolding tally
once_other i j k l ne = elim (Bool-cases (i == j)) [
  | inl e ↦ rw e (unbumped k l (λ q. ne (ground (arith, e), q)))
  | inr e ↦ rw e (amount_zero k)
]

module _ {H R : Type 0} (prom : IPrometheus H R) (laws : IsCounting prom) where
  open laws use {named, value, named_distinct, increment_lem}

  -- A call for kind `l` of manager `j`, named `n`, as kind `k` of manager `i`, named `o`, sees it.
  incremented-Shows :
      (i j : ℕ) (o n : String) (k l : Kind) (m' m : Metrics H) (v w : ℕ) (r : R)
      → (i ≡ j → o ≡ n)
      → (metric_name k o ≡ metric_name l n → (i ≡ j) × (k ≡ l))
      → Shows prom laws o m' k v r
      → (s : Shows prom laws n m l w r)
      → Shows prom laws o m' k
          (v + amount k (tally i ((j, l) ∷ [])))
          (prom.increment_counter s.handle r)
  incremented-Shows i j o n k l m' m v w r one tells s' s =
      let (same, more, others) = increment_lem s.handle r in
      record {
        handle = s'.handle;
        held = s'.held;
        published = same (metric_name k o) ∙ s'.published;
        shown = elim (both_discrete i j k l) [
          | yes (e, f) ↦
              let g : s'.handle ≡ s.handle =
                some-cancel (sym s'.published ∙ rw (one e, f) s.published) in
              rw g (omega (arith, more, s'.shown, ap (λ h. value h r) g, once_self i j k l e f))
          | no ne ↦
              let other : value s'.handle (prom.increment_counter s.handle r) ≡ value s'.handle r =
                others s'.handle (λ g. ne (
                  tells (
                    named_distinct r (metric_name k o) (metric_name l n) s'.handle s'.published
                      (s.published ∙ ap some (sym g))))) in
              omega (arith, other, s'.shown, once_other i j k l ne)
        ];
      }

  count_held :
      (ms : List (Metrics H)) (j : ℕ) (m : Metrics H) (l : Kind) (h : H) (r : R)
      → get_elem? ms j ≡ some m
      → m.prometheus ≡ true
      → counter_of l m ≡ some h
      → (get_elem? ms j >>= (λ m. count prom l m r)) ≡ some (prom.increment_counter h r)
  unfolding count
  count_held ms j m l h r e set held = rw e (ground (arith, set, held))

  module _ (names : List String) (ms : List (Metrics H)) (start : R)
      (fine : AreGood prom laws names start) where
    same-Metered :
        (amounts others : ℕ → Kind → ℕ) (r : R)
        → ((i : ℕ) (k : Kind) → amounts i k ≡ others i k)
        → Metered prom laws names ms amounts r
        → Metered prom laws names ms others r
    same-Metered amounts others r same met = record {
      meter = λ i n at.
          let (m, e, set, shows) = met.meter i n at in
          (
            m,
            e,
            set,
            λ k. record {
              handle = (shows k).handle;
              held = (shows k).held;
              published = (shows k).published;
              shown = (shows k).shown ∙ same i k;
            },
          );
    }

    count_lem :
        (j : ℕ) (l : Kind) (amounts : ℕ → Kind → ℕ) (r : R)
        → ltb j (length names) ≡ true
        → Metered prom laws names ms amounts r
        → (r' : R) × ((get_elem? ms j >>= (λ m. count prom l m r)) ≡ some r')
          × Metered prom laws names ms (λ i k. amounts i k + amount k (tally i ((j, l) ∷ []))) r'
    count_lem j l amounts r h met =
        let (n, at) = get_elem?_total names j (ground (arith, h)) in
        let (m, e, set, shows) = met.meter j n at in
        let s = shows l in
        (
          prom.increment_counter s.handle r,
          count_held ms j m l s.handle r e set s.held,
          record {
            meter = λ i o at'.
                let (m', e', set', shows') = met.meter i o at' in
                (
                  m',
                  e',
                  set',
                  λ k.
                      incremented-Shows i j o n k l m' m (amounts i k) (amounts j l) r
                        (λ same. some-cancel (sym at' ∙ ap (λ a. get_elem? names a) same ∙ at))
                        (λ same.
                          let (kinds, ones) =
                            metric_name-injective k l o n (fine.plain i o at') (fine.plain j n at)
                              same in
                          (fine.distinct i j n (at' ∙ ap some ones) at, kinds))
                        (shows' k) s,
                );
          },
        )

    count_all_lem :
        (cs : List (ℕ × Kind)) (amounts : ℕ → Kind → ℕ) (r : R)
        → All (λ c. ltb c.0 (length names)) cs
        → Metered prom laws names ms amounts r
        → (r' : R) × (count_all prom cs ms r ≡ some r')
          × Metered prom laws names ms (λ i k. amounts i k + amount k (tally i cs)) r'
    unfolding count_all
    count_all_lem [] amounts r h met =
        (r, refl, same-Metered amounts _ r (λ i k. omega (arith, amount_nil i k)) met)
    count_all_lem ((j, l) ∷ cs) amounts r h met =
        let (r', e, met') = count_lem j l amounts r h.0 met in
        let (r'', e', met'') =
          count_all_lem cs (λ i k. amounts i k + amount k (tally i ((j, l) ∷ []))) r' h.1 met' in
        (r'', rw e e', same-Metered _ _ r'' (λ i k. omega (arith, amount-tally i j k l cs)) met'')

  -- Any number of managers on one server, with thread names that differ and do not begin with
  -- "Dropped", whose counters' names the server takes and has not yet: each is given the server and
  -- run with no fault, and then, whichever of them count what in which order, no call faults, and the
  -- server publishes each manager's counters under its names with the values that the counters of
  -- the manager have in the model.
  pub main-publishes :
      (names : List String) (r : R) (cs : List (ℕ × Kind)) (i : ℕ) (n : String) (k : Kind)
      → AreGood prom laws names r
      → All (λ c. ltb c.0 (length names)) cs
      → get_elem? names i ≡ some n
      → (ms : List (Metrics H)) × (s : R) × (t : R) × (run_all prom names r ≡ some (ms, s))
        × (count_all prom cs ms s ≡ some t)
        × ((h : H) × (named (metric_name k n) t ≡ some h) × (value h t ≡ amount k (tally i cs)))
  main-publishes names r cs i n k fine h at =
      let (ms, s, e, kept, met) = run_all_lem prom laws names r fine in
      let (t, e', met') = count_all_lem names ms r fine cs (λ i k. 0) s h met in
      let (m, held, set, shows) = met'.meter i n at in
      (ms, s, t, e, e', ((shows k).handle, (shows k).published, omega (arith, (shows k).shown)))
