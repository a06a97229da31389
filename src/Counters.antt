-- ===== src/Counters.antt =====
-- The three counters of a manager (inc/IManager.h), as inc/IPrometheus.h lets it use them: each
-- number is how often IncrementCounter was called with that handle.
use poc_event_manager.Prelude.{ℕ, ◌+◌}

pub record Counters : Type 0 where
  pub rx : ℕ  -- _eventRxCounter
  pub tx : ℕ  -- _eventTxCounter
  pub dropped : ℕ  -- _eventTxDroppedCounter

abbrev pub zero_counters : Counters
zero_counters = record { rx = 0; tx = 0; dropped = 0 }

abbrev pub increment_rx : Counters → Counters
increment_rx c = record c { rx = c.rx + 1 }

abbrev pub increment_tx : Counters → Counters
increment_tx c = record c { tx = c.tx + 1 }

abbrev pub increment_dropped : Counters → Counters
increment_dropped c = record c { dropped = c.dropped + 1 }
