-- ===== src/Prometheus/Serving.antt =====
-- PrometheusSimpleServer of inc/promethues-simple-server.h keeps the promises of IPrometheus, and its
-- test program counts.
use Prim.Native.String.{String}
use text.Mathlib.TextEquality.{eq_iff}
use text.Mathlib.Text.{◌==◌}
use poc_event_manager.Prelude.{
  ℕ, zero, suc, ◌+◌, ◌≡◌, ◌≢◌, refl, sym, ap, ◌∙◌, true, Bool-cases, inl, inr, none, some, [], ◌∷◌,
  arith,
}
use poc_event_manager.Prometheus.Interface.{IsCounting}
use poc_event_manager.Prometheus.Library.{PrometheusCpp}
use poc_event_manager.Prometheus.Server.{
  PrometheusSimpleServer, construct, start, add_counter, increment_counter, server_ops,
  increment_times, test_main,
}

module _ {F H G : Type 0} (lib : PrometheusCpp F H G) where
  open lib use {
    new_registry, register, add, increment, named, value, is_metric_name, family_name, new_named,
    register_family, add_named, add_again, add_fresh, add_other, add_value, named_distinct,
    increment_named, increment_self, increment_other,
  }

  -- Adding to a family: whether or not its counter was there, other counters keep their values.
  add_kept :
      (f : F) (g : G) (k : String) (h : H)
      → named k g ≡ some h
      → (named k (add f g).1 ≡ some h) × (value h (add f g).1 ≡ value h g)
  add_kept f g k h e = (
    elim (Bool-cases (k == family_name f)) [
      | inl same ↦
          let at = (eq_iff k (family_name f)).0 same in
          cc (at, e, add_named f g, add_again f g h (sym (ap (λ n. named n g) at) ∙ e))
      | inr other ↦ add_other f g k (λ at. cc (other, (eq_iff k (family_name f)).1 at)) ∙ e
    ],
    add_value f g k h e,
  )

  pub add_counter_lem :
      (n help : String) (s : PrometheusSimpleServer G)
      → is_metric_name n ≡ true
      → (h : H) × (s' : PrometheusSimpleServer G) × (add_counter lib n help s ≡ some (h, s'))
        × (named n s'.registry ≡ some h)
        × (named n s.registry ≡ none → value h s'.registry ≡ 0)
        × ((k : String) (g : H)
            → named k s.registry ≡ some g
            → (named k s'.registry ≡ some g) × (value g s'.registry ≡ value g s.registry))
        × ((k : String) → k ≢ n → named k s'.registry ≡ named k s.registry)
  unfolding add_counter
  add_counter_lem n help s good =
      let (f, g, e, fam, same, vals) = register_family n help s.registry good in
      (
        (add f g).0,
        record s { registry = (add f g).1 },
        rw e refl,
        rw (sym fam) (add_named f g),
        λ h. add_fresh f g (rw fam (same n ∙ h)),
        λ k h e. let (p, q) = add_kept f g k h (same k ∙ e) in (p, q ∙ vals h),
        λ k ne. add_other f g k (rw fam ne) ∙ same k,
      )

  unfoldable pub server_laws : IsCounting (server_ops lib)
  unfolding increment_counter
  server_laws = record {
    is_name = is_metric_name;
    named = λ n s. named n s.registry;
    value = λ h s. value h s.registry;
    named_distinct = λ s n k h. named_distinct s.registry n k h;
    add_lem = add_counter_lem;
    increment_lem = λ h s. (
      increment_named h s.registry,
      increment_self h s.registry,
      λ g ne. increment_other h g s.registry ne,
    );
  }

  exposed-add_counter :
      (n help : String) (s : PrometheusSimpleServer G) (r : H × PrometheusSimpleServer G)
      → add_counter lib n help s ≡ some r
      → r.1.exposed ≡ s.exposed
  unfolding add_counter
  exposed-add_counter n help s r e = ground arith

  increment_times_lem :
      (n : ℕ) (h : H) (s : PrometheusSimpleServer G)
      → (value h (increment_times lib n h s).registry ≡ value h s.registry + n)
        × ((k : String) → named k (increment_times lib n h s).registry ≡ named k s.registry)
        × ((increment_times lib n h s).exposed ≡ s.exposed)
  unfolding increment_times increment_counter
  increment_times_lem zero h s = (omega arith, λ k. refl, refl)
  increment_times_lem (suc n) h s =
      let (a, b, c) = increment_times_lem n h (increment_counter lib h s) in
      (omega (arith, a, increment_self h s.registry), λ k. b k ∙ increment_named h s.registry k, c)

  -- With a library that keeps its documented promises and takes the name: if the port can be opened,
  -- then after `rounds` seconds the test program publishes under /metrics a counter of that name with
  -- the value `rounds`.
  pub test_main-shows :
      (rounds : ℕ)
      → is_metric_name "number_seconds_total" ≡ true
      → (s : PrometheusSimpleServer G) × (h : H) × (test_main lib true rounds ≡ some s)
        × (s.exposed ≡ "/metrics" ∷ [])
        × (named "number_seconds_total" s.registry ≡ some h)
        × (value h s.registry ≡ rounds)
  unfolding test_main construct start
  test_main-shows rounds good =
      let fresh : PrometheusSimpleServer G = record { exposed = []; registry = new_registry } in
      let (h, s, e, at, zero_at, kept, others) =
        add_counter_lem "number_seconds_total" "Total number of seconds elapsed" fresh good in
      let (a, b, c) = increment_times_lem rounds h (start lib s) in
      (
        increment_times lib rounds h (start lib s),
        h,
        rw e refl,
        c
            ∙ ap (λ l. "/metrics" ∷ l)
                (exposed-add_counter "number_seconds_total" "Total number of seconds elapsed" fresh
                  (h, s) e),
        b "number_seconds_total" ∙ at,
        omega (arith, a, zero_at (new_named "number_seconds_total")),
      )
