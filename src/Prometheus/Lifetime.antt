-- ===== src/Prometheus/Lifetime.antt =====
-- A manager of inc/IManager.h from its construction on: SetPrometheus, Run, Stop, its thread and its
-- counting, in any order.
use Prim.Native.String.{String}
use poc_event_manager.Prelude.{
  ◌≡◌, ◌≢◌, ◌⊎◌, inl, inr, refl, ◌∙◌, sym, ap, subst, true, false, Option, none, some, ◌>>=◌,
  some-cancel, guard-eq-some, >>=-eq-some, arith, Bool-cases,
}
use poc_event_manager.Manager.Lifecycle.{
  Life, absent, free, fresh, Action, step, main_step, thread_step, stop, join_thread, run_manager,
}
use poc_event_manager.Prometheus.Interface.{IPrometheus}
use poc_event_manager.Prometheus.Metrics.{
  Kind, received, sent, dropped, Metrics, no_metrics, set_prometheus, counter_of, register_all,
  register_three, metric_name, help, count,
}

pub record Metered (H R : Type 0) : Type 0 where
  pub life : Life
  pub metrics : Metrics H
  pub server : R

module _ {H R : Type 0} (prom : IPrometheus H R) where
  -- Run: the counters, then the thread.
  unfoldable pub run_metered : String → Metered H R → Option (Metered H R)
  run_metered name s = do
    r ← register_all prom name s.metrics s.server
    some (record { life = run_manager s.life; metrics = r.0; server = r.1 })

  -- SetPrometheus is given a server, never null.
  pub data Step : Metered H R → Metered H R → Type 0 where
    sets : (s : Metered H R) → Step s (record s { metrics = set_prometheus true s.metrics })
    runs :
        (name : String) {s t : Metered H R}
        → s.life.main_pc ≡ free
        → run_metered name s ≡ some t
        → Step s t
    acts :
        (a : Action) {s : Metered H R} {l : Life}
        → a ≢ Action.runs
        → step a s.life ≡ some l
        → Step s (record s { life = l })
    counts :
        (k : Kind) {s : Metered H R} {r : R}
        → count prom k s.metrics s.server ≡ some r
        → Step s (record s { server = r })

  pub data Reach (r : R) : Metered H R → Type 0 where
    start : Reach r (record { life = fresh; metrics = no_metrics; server = r })
    later : {s t : Metered H R} → Reach r s → Step s t → Reach r t

  -- Before the thread.
  record Unstarted (l : Life) (m : Metrics H) : Type 0 where
    no_thread : l.thread_pc ≡ absent
    no_join : l.joinable ≡ false
    no_counter : (k : Kind) → counter_of k m ≡ none

  record Started (l : Life) (m : Metrics H) : Type 0 where
    thread : l.thread_pc ≢ absent
    set : m.prometheus ≡ true
    counter : (k : Kind) → (h : H) × (counter_of k m ≡ some h)

  counter_of-set_prometheus :
      (k : Kind) (m : Metrics H) → counter_of k (set_prometheus true m) ≡ counter_of k m
  counter_of-set_prometheus received m = refl
  counter_of-set_prometheus sent m = refl
  counter_of-set_prometheus dropped m = refl

  counter_of-no_metrics : (k : Kind) → counter_of k (no_metrics {H = H}) ≡ none
  counter_of-no_metrics received = refl
  counter_of-no_metrics sent = refl
  counter_of-no_metrics dropped = refl

  three_set :
      (m m' : Metrics H) (a b c : H)
      → record m { rx = some a; tx = some b; dropped_tx = some c } ≡ m'
      → (m'.prometheus ≡ m.prometheus) × ((k : Kind) → (h : H) × (counter_of k m' ≡ some h))
  three_set m m' a b c e = (
    ap (λ (k : Metrics H). k.prometheus) (sym e),
    λ k. elim k as (λ l. (h : H) × (counter_of l m' ≡ some h)) [
      | received ↦ (a, ap (λ (i : Metrics H). i.rx) (sym e))
      | sent ↦ (b, ap (λ (i : Metrics H). i.tx) (sym e))
      | dropped ↦ (c, ap (λ (i : Metrics H). i.dropped_tx) (sym e))
    ],
  )

  register_three-counters :
      (name : String) (m : Metrics H) (r : R) (p : Metrics H × R)
      → register_three prom name m r ≡ some p
      → (p.0.prometheus ≡ m.prometheus) × ((k : Kind) → (h : H) × (counter_of k p.0 ≡ some h))
  unfolding register_three
  register_three-counters name m r p e =
      let (a, ea, e1) =
        >>=-eq-some (prom.add_counter (metric_name received name) (help received) r) _ e in
      let (b, eb, e2) =
        >>=-eq-some (prom.add_counter (metric_name sent name) (help sent) a.1) _ e1 in
      let (c, ec, e3) =
        >>=-eq-some (prom.add_counter (metric_name dropped name) (help dropped) b.1) _ e2 in
      three_set m p.0 a.0 b.0 c.0 (ap (λ (q : Metrics H × R). q.0) (some-cancel e3))

  register_all-counters :
      (name : String) (m : Metrics H) (r : R) (p : Metrics H × R)
      → register_all prom name m r ≡ some p
      → (p.0.prometheus ≡ true) × ((k : Kind) → (h : H) × (counter_of k p.0 ≡ some h))
  unfolding register_all
  register_all-counters name m r p e =
      let (set, done) = guard-eq-some m.prometheus (register_three prom name m r) e in
      let (same, all) = register_three-counters name m r p done in (same ∙ set, all)

  -- A second Run terminates the program, and leaves the thread as it was.
  thread-run_manager : (l : Life) → l.joinable ≡ true → (run_manager l).thread_pc ≡ l.thread_pc
  unfolding run_manager
  thread-run_manager l on = rw on refl

  run_manager-thread :
      (l : Life) (m : Metrics H) → Unstarted l m ⊎ Started l m → (run_manager l).thread_pc ≢ absent
  unfolding run_manager
  run_manager-thread l m (inl u) h = ground (arith, u.no_join, h)
  run_manager-thread l m (inr w) h = elim (Bool-cases l.joinable) [
    | inl on ↦ w.thread (sym (thread-run_manager l on) ∙ h)
    | inr off ↦ ground (arith, off, h)
  ]

  step-Unstarted :
      (a : Action) (l l' : Life) (m : Metrics H)
      → a ≢ Action.runs
      → step a l ≡ some l'
      → Unstarted l m
      → Unstarted l' m
  unfolding step main_step thread_step stop join_thread
  step-Unstarted a l l' m n e v = ground (arith, n, e, v.no_thread, v.no_join, v.no_counter)

  step-Started :
      (a : Action) (l l' : Life) (m : Metrics H)
      → a ≢ Action.runs
      → step a l ≡ some l'
      → Started l m
      → Started l' m
  unfolding step main_step thread_step stop join_thread
  step-Started a l l' m n e v = ground (arith, n, e, v.thread, v.set, v.counter)

  step-Inv :
      {s t : Metered H R}
      → Step s t
      → Unstarted s.life s.metrics ⊎ Started s.life s.metrics
      → Unstarted t.life t.metrics ⊎ Started t.life t.metrics
  unfolding run_metered
  step-Inv (sets s) (inl u) = inl (record {
    no_thread = u.no_thread;
    no_join = u.no_join;
    no_counter = λ k. counter_of-set_prometheus k s.metrics ∙ u.no_counter k;
  })
  step-Inv (sets s) (inr w) = inr (record {
    thread = w.thread;
    set = refl;
    counter = λ k. ((w.counter k).0, counter_of-set_prometheus k s.metrics ∙ (w.counter k).1);
  })
  step-Inv (runs name {s} {t} at e) v =
      let (r, registered, same) = >>=-eq-some (register_all prom name s.metrics s.server) _ e in
      let (set, all) = register_all-counters name s.metrics s.server r registered in
      subst (λ (k : Metered H R). Unstarted k.life k.metrics ⊎ Started k.life k.metrics)
        (some-cancel same)
        (inr (record { thread = run_manager-thread s.life s.metrics v; set = set; counter = all }))
  step-Inv (acts a {s} {l} n e) (inl u) = inl (step-Unstarted a s.life l s.metrics n e u)
  step-Inv (acts a {s} {l} n e) (inr w) = inr (step-Started a s.life l s.metrics n e w)
  step-Inv (counts k e) v = v

  Reach-Inv :
      {r : R} {s : Metered H R} → Reach r s → Unstarted s.life s.metrics ⊎ Started s.life s.metrics
  Reach-Inv start =
      inl (record { no_thread = refl; no_join = refl; no_counter = counter_of-no_metrics })
  Reach-Inv (later r st) = step-Inv st (Reach-Inv r)

  -- In every state of a manager that was given servers and run, stopped and run again in any order:
  -- before its first Run each of its calls of IncrementCounter goes through a null pointer, and
  -- after it none does, in whichever thread, also after Stop.
  pub Reach-count :
      {r : R} {s : Metered H R} (k : Kind)
      → Reach r s
      → ((s.life.thread_pc ≡ absent) × (count prom k s.metrics s.server ≡ none))
        ⊎ ((s.life.thread_pc ≢ absent)
            × ((h : H) × (count prom k s.metrics s.server
                  ≡ some (prom.increment_counter h s.server))))
  unfolding count
  Reach-count k r = elim (Reach-Inv r) [
    | inl u ↦ inl (u.no_thread, ground (arith, u.no_counter k))
    | inr w ↦ let (h, held) = w.counter k in inr (w.thread, (h, rw w.set (ground (arith, held))))
  ]
