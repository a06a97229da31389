-- ===== src/Tests/Metrics.antt =====
-- The Prometheus library as two functions of the name, and the counters of the managers on it.
use Prim.Native.String.{String}
use text.Mathlib.Text.{◌==◌}
use text.Mathlib.TextEquality.{eq_iff}
use poc_event_manager.Prelude.{
  ℕ, zero, suc, ◌+◌, ◌≡◌, ◌≢◌, ◌⊎◌, refl, Bool, true, false, Option, none, some, some-cancel, sym,
  List, [], ◌∷◌, get_elem?, if◌then◌else◌, arith,
}
use poc_event_manager.Prometheus.Library.{PrometheusCpp}
use poc_event_manager.Prometheus.Server.{PrometheusSimpleServer, test_main, server_ops, add_counter}
use poc_event_manager.Prometheus.Serving.{test_main-shows, server_laws}
use poc_event_manager.Prometheus.Metrics.{
  Kind, received, sent, Metrics, metric_name, no_metrics, set_prometheus, count, register_all,
}
use poc_event_manager.Prometheus.Names.{begins_dropped}
use poc_event_manager.Prometheus.Metering.{tally, run_all, count_all, AreGood}
use poc_event_manager.Prometheus.Counting.{main-publishes}
use poc_event_manager.Prometheus.Lifetime
use poc_event_manager.Prometheus.Lifetime.{Metered, Reach-count}
use poc_event_manager.Manager.Lifecycle.{absent, fresh, run_manager}

-- A counter is its name; is it made, and its value.
record Memory : Type 0 where
  made : String → Bool
  count : String → ℕ

abbrev add_name : String → Memory → String × Memory
add_name f g = (
  f,
  record {
    made = λ k. if k == f then true else g.made k;
    count = λ k. if g.made k then g.count k else if k == f then 0 else g.count k;
  },
)

abbrev named_in : String → Memory → Option String
named_in n g = if g.made n then some n else none

abbrev add_one : String → Memory → Memory
add_one h g = record g { count = λ k. if k == h then g.count k + 1 else g.count k }

add_named : (f : String) (g : Memory) → named_in f (add_name f g).1 ≡ some f
add_named f g = ground (arith, eq_iff f f)

add_again : (f : String) (g : Memory) (h : String) → named_in f g ≡ some h → f ≡ h
add_again f g h e = ground (arith, e)

add_fresh : (f : String) (g : Memory) → named_in f g ≡ none → (add_name f g).1.count f ≡ 0
add_fresh f g e = ground (arith, e, eq_iff f f)

add_other :
    (f : String) (g : Memory) (n : String) → n ≢ f → named_in n (add_name f g).1 ≡ named_in n g
add_other f g n ne = ground (arith, eq_iff n f, ne)

add_value :
    (f : String) (g : Memory) (n h : String)
    → named_in n g ≡ some h
    → (add_name f g).1.count h ≡ g.count h
add_value f g n h e = ground (arith, e)

one_name : (g : Memory) (n k h : String) → named_in n g ≡ some h → named_in k g ≡ some h → n ≡ k
one_name g n k h e f = ground (arith, e, f)

count-add_one : (h : String) (g : Memory) → (add_one h g).count h ≡ g.count h + 1
count-add_one h g = ground (arith, eq_iff h h)

count-add_one_other : (h k : String) (g : Memory) → k ≢ h → (add_one h g).count k ≡ g.count k
count-add_one_other h k g ne = ground (arith, eq_iff k h, ne)

abbrev by_name : PrometheusCpp String String Memory
by_name = record {
  new_registry = record { made = λ k. false; count = λ k. 0 };
  register = λ n help g. some (n, g);
  add = add_name;
  increment = add_one;
  is_metric_name = λ n. true;
  family_name = λ f. f;
  named = named_in;
  value = λ h g. g.count h;
  new_named = λ n. refl;
  register_family = λ n help g good. (n, g, refl, refl, (λ k. refl), (λ h. refl));
  add_named = add_named;
  add_again = add_again;
  add_fresh = add_fresh;
  add_other = add_other;
  add_value = add_value;
  named_distinct = one_name;
  increment_named = λ h g n. refl;
  increment_self = count-add_one;
  increment_other = count-add_one_other;
}

test_main-shows_example :
    (s : PrometheusSimpleServer Memory) × (h : String) × (test_main by_name true 3 ≡ some s)
    × (s.exposed ≡ "/metrics" ∷ [])
    × (by_name.named "number_seconds_total" s.registry ≡ some h)
    × (by_name.value h s.registry ≡ 3)
test_main-shows_example = test_main-shows by_name 3 refl

abbrev names : List String
names = "ManagerA" ∷ "ManagerB" ∷ []

a-ne-b : ◌≢◌ {A = String} "ManagerA" "ManagerB"
a-ne-b = ground (arith, eq_iff "ManagerA" "ManagerB")

names_distinct :
    (i j : ℕ) (n : String) → get_elem? names i ≡ some n → get_elem? names j ≡ some n → i ≡ j
names_distinct zero zero n e f = refl
names_distinct zero (suc zero) n e f = absurd (a-ne-b (cc (e, f)))
names_distinct (suc zero) zero n e f = absurd (a-ne-b (cc (e, f)))
names_distinct (suc zero) (suc zero) n e f = refl
names_distinct (suc (suc i)) j n e f = absurd (cc e)
names_distinct zero (suc (suc j)) n e f = absurd (cc f)
names_distinct (suc zero) (suc (suc j)) n e f = absurd (cc f)

names_plain : (i : ℕ) (n : String) → get_elem? names i ≡ some n → begins_dropped n ≡ false
names_plain zero n e = rw (sym (some-cancel e)) refl
names_plain (suc zero) n e = rw (sym (some-cancel e)) refl
names_plain (suc (suc i)) n e = absurd (cc e)

started : PrometheusSimpleServer Memory
started = record { exposed = []; registry = by_name.new_registry }

names-AreGood : AreGood (server_ops by_name) (server_laws by_name) names started
unfolding server_laws started
names-AreGood = record {
  distinct = names_distinct;
  plain = names_plain;
  good = λ i n k e. refl;
  new = λ i n k e. refl;
}

-- ManagerA sends twice, ManagerB receives once.
abbrev calls : List (ℕ × Kind)
calls = (0, sent) ∷ (1, received) ∷ (0, sent) ∷ []

main-publishes_example :
    (ms : List (Metrics String)) × (s : PrometheusSimpleServer Memory) × (t : PrometheusSimpleServer
      Memory)
    × (run_all (server_ops by_name) names started ≡ some (ms, s))
    × (count_all (server_ops by_name) calls ms s ≡ some t)
    × ((h : String) × (by_name.named (metric_name sent "ManagerA") t.registry ≡ some h)
        × (by_name.value h t.registry ≡ 2))
unfolding server_laws tally
main-publishes_example =
    main-publishes (server_ops by_name) (server_laws by_name) names started calls 0 "ManagerA" sent
      names-AreGood (refl, (refl, (refl, tt))) refl

-- ManagerA is given the server, and run.
abbrev given : Metered String (PrometheusSimpleServer Memory)
given = record { life = fresh; metrics = set_prometheus true no_metrics; server = started }

abbrev running : Metered String (PrometheusSimpleServer Memory)
running = record {
  life = run_manager fresh;
  metrics = record {
    prometheus = true;
    rx = some "eventRxManagerA";
    tx = some "eventTxManagerA";
    dropped_tx = some "eventTxDroppedManagerA";
  };
  server = record started {
    registry =
        (add_name "eventTxDroppedManagerA"
          (add_name "eventTxManagerA" (add_name "eventRxManagerA" by_name.new_registry).1).1).1;
  };
}

running_reach : Lifetime.Reach (server_ops by_name) started running
unfolding Lifetime.run_metered started register_all add_counter metric_name
running_reach =
    Lifetime.later {s = given}
      (Lifetime.later Lifetime.start
        (Lifetime.sets (record { life = fresh; metrics = no_metrics; server = started })))
      (Lifetime.runs "ManagerA" {s = given} {t = running} refl refl)

Reach-count_example :
    ((running.life.thread_pc ≡ absent)
      × (count (server_ops by_name) sent running.metrics running.server ≡ none))
    ⊎ ((running.life.thread_pc ≢ absent)
        × ((h : String) × (count (server_ops by_name) sent running.metrics running.server
              ≡ some ((server_ops by_name).increment_counter h running.server))))
Reach-count_example = Reach-count (server_ops by_name) sent running_reach
