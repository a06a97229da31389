-- ===== src/Prometheus/Metrics.antt =====
-- The part of a manager that counts (inc/IManager.h): the pointer to the server and the three
-- counters, which Run registers under names that end in the name of the thread.
use Prim.Native.String.{String, ◌++◌}
use poc_event_manager.Prelude.{Bool, false, Option, none, some, ◌>>=◌, if◌then◌else◌}
use poc_event_manager.Prometheus.Interface.{IPrometheus}

pub data Kind : Type 0 where
  received sent dropped : Kind

pub record Metrics (H : Type 0) : Type 0 where
  pub prometheus : Bool  -- is _prometheus set?
  pub rx : Option H  -- _eventRxCounter, or null
  pub tx : Option H  -- _eventTxCounter
  pub dropped_tx : Option H  -- _eventTxDroppedCounter

abbrev pub no_metrics : {H : Type 0} → Metrics H
no_metrics = record { prometheus = false; rx = none; tx = none; dropped_tx = none }

-- `given`: is the argument a server, and not null?
abbrev pub set_prometheus : {H : Type 0} → Bool → Metrics H → Metrics H
set_prometheus given m = record m { prometheus = given }

abbrev pub prefix : Kind → String
prefix received = "eventRx"
prefix sent = "eventTx"
prefix dropped = "eventTxDropped"

unfoldable pub metric_name : Kind → String → String
metric_name k name = prefix k ++ name

abbrev pub help : Kind → String
help received = "Total number of times the manager has received events"
help sent = "Total number of times the manager has transmitted events"
help dropped = "Total number of times the manager has dropped events due to full queue"

abbrev pub counter_of : {H : Type 0} → Kind → Metrics H → Option H
counter_of received m = m.rx
counter_of sent m = m.tx
counter_of dropped m = m.dropped_tx

module _ {H R : Type 0} (prom : IPrometheus H R) where
  unfoldable pub register_three : String → Metrics H → R → Option (Metrics H × R)
  register_three name m r = do
    a ← prom.add_counter (metric_name received name) (help received) r
    b ← prom.add_counter (metric_name sent name) (help sent) a.1
    c ← prom.add_counter (metric_name dropped name) (help dropped) b.1
    some (record m { rx = some a.0; tx = some b.0; dropped_tx = some c.0 }, c.1)

  -- Run up to the start of the thread; `none` where _prometheus is null.
  unfoldable pub register_all : String → Metrics H → R → Option (Metrics H × R)
  unfolding register_three
  register_all name m r = if m.prometheus then register_three name m r else none

  -- `_prometheus->IncrementCounter(…)`; `none` where it goes through a null pointer.
  unfoldable pub count : Kind → Metrics H → R → Option R
  count k m r =
      if m.prometheus then counter_of k m >>= (λ h. some (prom.increment_counter h r)) else none
