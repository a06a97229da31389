-- ===== src/ListManager.antt =====
-- The managers of app2.cpp and main.cpp have the same members, a list under a mutex and a
-- PipedEvent, and differ in what they send. The mutex is held throughout each of these calls.
use poc_event_manager.Prelude.{Option, some, ◌>>=◌, List, [], ◌∷◌, ◌++◌, ℤ}
use poc_event_manager.PipedEvent.Defs.{PipedEvent, construct, fire, consume}
use poc_event_manager.Event.{Event}
use poc_event_manager.Counters.{Counters, zero_counters, increment_rx, increment_tx}

-- The members that some method reads.
pub record Manager : Type 0 where
  pub tx_event : PipedEvent
  pub tx_queue : List Event
  pub counters : Counters

abbrev pub new_manager : PipedEvent → Manager
new_manager e = record { tx_event = e; tx_queue = []; counters = zero_counters }

-- `fds` is what `pipe` returned.
unfoldable pub build : Option (ℤ × ℤ) → Option Manager
build fds = construct fds >>= (λ e. some (new_manager e))

-- `txQueue.emplace_back`, `IncrementCounter(_eventTxCounter)` and `txEvent.Fire()`.
unfoldable pub send : Event → Manager → Manager
send e m = record m {
  tx_queue = m.tx_queue ++ e ∷ [];
  counters = increment_tx m.counters;
  tx_event = fire m.tx_event;
}

-- Consume of ManagerA and ManagerB.
unfoldable pub consume_event : Event → Manager → Manager
consume_event e m = record m { counters = increment_rx m.counters }

unfoldable pub produce : Manager → List Event × Manager
produce m = (m.tx_queue, record m { tx_queue = []; tx_event = consume m.tx_event })
