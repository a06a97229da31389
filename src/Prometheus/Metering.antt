-- ===== src/Prometheus/Metering.antt =====
-- Several managers on one server, as in the mains: each is given the server and run, and then they
-- count in any order.
use Prim.Native.String.{String}
use poc_event_manager.Prelude.{
  ℕ, zero, suc, ◌==◌, ◌≡◌, refl, sym, ap, ◌∙◌, true, false, Option, none, some, some-cancel, ◌>>=◌,
  List, [], ◌∷◌, get_elem?, if◌then◌else◌, arith,
}
use poc_event_manager.Counters.{
  Counters, zero_counters, increment_rx, increment_tx, increment_dropped,
}
use poc_event_manager.Prometheus.Interface.{IPrometheus, IsCounting}
use poc_event_manager.Prometheus.Names.{begins_dropped, metric_name-injective}
use poc_event_manager.Prometheus.Metrics.{
  Kind, received, sent, dropped, Metrics, no_metrics, set_prometheus, metric_name, register_all,
  count,
}
use poc_event_manager.Prometheus.Registering.{
  IsKept, IsKept-refl, IsKept-trans, Shows, kept-Shows, Registered, register_all_lem,
}

-- The counters of the model of a manager, by kind.
abbrev pub bump : Kind → Counters → Counters
bump received = increment_rx
bump sent = increment_tx
bump dropped = increment_dropped

abbrev pub amount : Kind → Counters → ℕ
amount received c = c.rx
amount sent c = c.tx
amount dropped c = c.dropped

-- What the calls come to for manager `i`.
unfoldable pub tally : ℕ → List (ℕ × Kind) → Counters
tally i [] = zero_counters
tally i ((j, k) ∷ cs) = let rest = tally i cs in if i == j then bump k rest else rest

module _ {H R : Type 0} (prom : IPrometheus H R) where
  -- `manager->SetPrometheus(&prometheusServer); manager->Run();` for each manager.
  unfoldable pub run_all : List String → R → Option (List (Metrics H) × R)
  run_all [] r = some ([], r)
  run_all (n ∷ ns) r = do
    a ← register_all prom n (set_prometheus true no_metrics) r
    b ← run_all ns a.1
    some (a.0 ∷ b.0, b.1)

  -- Calls of IncrementCounter by the managers, in order.
  unfoldable pub count_all : List (ℕ × Kind) → List (Metrics H) → R → Option R
  count_all [] ms r = some r
  count_all ((i, k) ∷ cs) ms r = get_elem? ms i >>= (λ m. count prom k m r) >>= count_all cs ms

module _ {H R : Type 0} (prom : IPrometheus H R) (laws : IsCounting prom) where
  open laws use {is_name, named, value, named_distinct, increment_lem}

  -- What Run asks of the names of the threads.
  pub record AreGood (names : List String) (r : R) : Type 0 where
    pub distinct :
        (i j : ℕ) (n : String) → get_elem? names i ≡ some n → get_elem? names j ≡ some n → i ≡ j
    pub plain : (i : ℕ) (n : String) → get_elem? names i ≡ some n → begins_dropped n ≡ false
    pub good :
        (i : ℕ) (n : String) (k : Kind)
        → get_elem? names i ≡ some n
        → is_name (metric_name k n) ≡ true
    pub new :
        (i : ℕ) (n : String) (k : Kind)
        → get_elem? names i ≡ some n
        → named (metric_name k n) r ≡ none

  -- Every manager's counters are set and published with these values.
  pub record Metered (names : List String) (ms : List (Metrics H)) (amounts : ℕ → Kind → ℕ) (r : R)
      : Type 0 where
    pub meter :
        (i : ℕ) (n : String)
        → get_elem? names i ≡ some n
        → (m : Metrics H) × (get_elem? ms i ≡ some m)
          × (m.prometheus ≡ true)
          × ((k : Kind) → Shows prom laws n m k (amounts i k) r)

  tail-AreGood :
      (n : String) (ns : List String) (m : Metrics H) (r r' : R)
      → AreGood (n ∷ ns) r
      → Registered prom laws n m r r'
      → AreGood ns r'
  tail-AreGood n ns m r r' a reg = record {
    distinct = λ i j k e f. omega (arith, a.distinct (suc i) (suc j) k e f);
    plain = λ i k e. a.plain (suc i) k e;
    good = λ i k l e. a.good (suc i) k l e;
    new = λ i k l e.
        reg.others (metric_name l k) (λ j same. omega (
          arith,
          a.distinct (suc i) 0 k e (
              ap some (
                sym
                  (metric_name-injective l j k n (a.plain (suc i) k e) (a.plain 0 n refl) same).1)),
        ))
        ∙ a.new (suc i) k l e;
  }

  cons-Metered :
      (n : String) (ns : List String) (m : Metrics H) (ms : List (Metrics H)) (r' : R)
      → m.prometheus ≡ true
      → ((k : Kind) → Shows prom laws n m k 0 r')
      → Metered ns ms (λ i k. 0) r'
      → Metered (n ∷ ns) (m ∷ ms) (λ i k. 0) r'
  cons-Metered n ns m ms r' set shows met = record { meter = at }
    where
      at :
          (i : ℕ) (l : String)
          → get_elem? (n ∷ ns) i ≡ some l
          → (a : Metrics H) × (get_elem? (m ∷ ms) i ≡ some a)
            × (a.prometheus ≡ true)
            × ((k : Kind) → Shows prom laws l a k 0 r')
      at zero l e = (m, refl, set, rw (sym (some-cancel e)) shows)
      at (suc i) l e = met.meter i l e

  pub run_all_lem :
      (names : List String) (r : R)
      → AreGood names r
      → (ms : List (Metrics H)) × (r' : R) × (run_all prom names r ≡ some (ms, r'))
        × IsKept prom laws r r'
        × Metered names ms (λ i k. 0) r'
  unfolding run_all
  run_all_lem [] r a =
      ([], r, refl, IsKept-refl prom laws r, record { meter = λ i n e. absurd (cc e) })
  run_all_lem (n ∷ ns) r a =
      let (m, s, e, reg) =
        register_all_lem prom laws n (set_prometheus true no_metrics) r refl (a.plain 0 n refl)
          (λ k. a.good 0 n k refl) (λ k. a.new 0 n k refl) in
      let (ms, t, e', kept, met) = run_all_lem ns s (tail-AreGood n ns m r s a reg) in
      (
        m ∷ ms,
        t,
        rw (e, e') refl,
        IsKept-trans prom laws r s t reg.kept kept,
        cons-Metered n ns m ms t reg.set (λ k. kept-Shows prom laws n m k 0 s t kept (reg.shows k))
            met,
      )
