-- ===== src/Prometheus/Server.antt =====
-- The class PrometheusSimpleServer of inc/promethues-simple-server.h, and its test program.
use Prim.Native.String.{String}
use poc_event_manager.Prelude.{
  ℕ, zero, suc, Bool, true, false, Option, none, some, ◌>>=◌, List, [], ◌∷◌,
}
use poc_event_manager.Prometheus.Interface.{IPrometheus}
use poc_event_manager.Prometheus.Library.{PrometheusCpp}

pub record PrometheusSimpleServer (G : Type 0) : Type 0 where
  pub exposed : List String  -- the paths under which `exposer` shows the registry
  pub registry : G

module _ {F H G : Type 0} (lib : PrometheusCpp F H G) where
  open lib use {new_registry, register, add, increment, named, value, is_metric_name}

  -- `bound`: could `exposer` open its port? It throws if not.
  unfoldable pub construct : Bool → Option (PrometheusSimpleServer G)
  construct true = some (record { exposed = []; registry = new_registry })
  construct false = none

  unfoldable pub start : PrometheusSimpleServer G → PrometheusSimpleServer G
  start s = record s { exposed = "/metrics" ∷ s.exposed }

  unfoldable pub add_counter :
      String → String → PrometheusSimpleServer G → Option (H × PrometheusSimpleServer G)
  add_counter name help s = do
    r ← register name help s.registry
    some ((add r.0 r.1).0, record s { registry = (add r.0 r.1).1 })

  unfoldable pub increment_counter : H → PrometheusSimpleServer G → PrometheusSimpleServer G
  increment_counter h s = record s { registry = increment h s.registry }

  abbrev pub server_ops : IPrometheus H (PrometheusSimpleServer G)
  server_ops = record { add_counter = add_counter; increment_counter = increment_counter }

  -- The test program, stopped after so many rounds of its loop.
  unfoldable pub increment_times : ℕ → H → PrometheusSimpleServer G → PrometheusSimpleServer G
  increment_times zero h s = s
  increment_times (suc n) h s = increment_times n h (increment_counter h s)

  unfoldable pub test_main : Bool → ℕ → Option (PrometheusSimpleServer G)
  test_main bound rounds = do
    s ← construct bound
    r ← add_counter "number_seconds_total" "Total number of seconds elapsed" s
    some (increment_times rounds r.0 (start r.1))
