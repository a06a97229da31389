-- ===== src/Prometheus/Names.antt =====
-- The names of the counters that Run registers (inc/IManager.h).
use Prim.Native.String.{String, ◌++◌, slice, len}
use text.Mathlib.Text.{starts_with}
use text.Mathlib.TextEquality.{eq_iff}
use text.Mathlib.TextLemmas.{append_assoc, append_cancel_left}
use text.Mathlib.TextPositions.{slice-append_left, starts_with-append}
use poc_event_manager.Prelude.{◌≡◌, ◌≢◌, refl, sym, ap, subst, ◌∙◌, Bool, true, false, arith}
use poc_event_manager.Prometheus.Metrics.{Kind, received, sent, dropped, metric_name}

abbrev pub begins_dropped : String → Bool
begins_dropped name = starts_with name "Dropped"

first_seven : (s t n m : String) → slice (s ++ n) 0 (len s) ≡ slice (t ++ m) 0 (len t) → s ≡ t
first_seven s t n m e = sym (slice-append_left s n) ∙ e ∙ slice-append_left t m

rx-ne-tx : (n m : String) → ("eventRx" ++ n) ≢ ("eventTx" ++ m)
rx-ne-tx n m e =
    let same = first_seven "eventRx" "eventTx" n m (ap (λ s. slice s 0 7) e) in
    ground (arith, eq_iff "eventRx" "eventTx")

rx-ne-dropped : (n m : String) → ("eventRx" ++ n) ≢ ("eventTxDropped" ++ m)
rx-ne-dropped n m e = rx-ne-tx n ("Dropped" ++ m) (e ∙ append_assoc "eventTx" "Dropped" m)

tx-dropped :
    (n m : String) → "eventTx" ++ n ≡ "eventTxDropped" ++ m → starts_with n "Dropped" ≡ true
tx-dropped n m e =
    let same : n ≡ "Dropped" ++ m =
      append_cancel_left "eventTx" n ("Dropped" ++ m) (e ∙ append_assoc "eventTx" "Dropped" m) in
    subst (λ s. starts_with s "Dropped" ≡ true) (sym same) (starts_with-append "Dropped" m)

-- If no manager's name begins with "Dropped", a counter's name tells the kind and the manager.
pub metric_name-injective :
    (k l : Kind) (n m : String)
    → begins_dropped n ≡ false
    → begins_dropped m ≡ false
    → metric_name k n ≡ metric_name l m
    → (k ≡ l) × (n ≡ m)
unfolding metric_name
metric_name-injective received received n m h g e = (refl, append_cancel_left "eventRx" n m e)
metric_name-injective received sent n m h g e = absurd (rx-ne-tx n m e)
metric_name-injective received dropped n m h g e = absurd (rx-ne-dropped n m e)
metric_name-injective sent received n m h g e = absurd (rx-ne-tx m n (sym e))
metric_name-injective sent sent n m h g e = (refl, append_cancel_left "eventTx" n m e)
metric_name-injective sent dropped n m h g e = absurd (cc (h, tx-dropped n m e))
metric_name-injective dropped received n m h g e = absurd (rx-ne-dropped m n (sym e))
metric_name-injective dropped sent n m h g e = absurd (cc (g, tx-dropped m n (sym e)))
metric_name-injective dropped dropped n m h g e = (refl, append_cancel_left "eventTxDropped" n m e)
