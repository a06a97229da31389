-- ===== src/App12/Managers.antt =====
-- ManagerA, ManagerB and ManagerC, over any rigtorp::SPSCQueue.
use poc_event_manager.Prelude.{
  ℕ, suc, ◌+◌, ◌%◌, ◌^◌, ◌==◌, Option, some, ◌>>=◌, List, [], ◌∷◌, ◌++◌, pos, if◌then◌else◌, length,
}
use poc_event_manager.AutoId.Defs.{AutoId}
use poc_event_manager.PipedEvent.Defs.{PipedEvent, fire, consume}
use poc_event_manager.Counters.{
  Counters, zero_counters, increment_rx, increment_tx, increment_dropped,
}
use poc_event_manager.Queues.Drain.{drain}
use poc_event_manager.Queues.Spsc.{SpscQueue, front_round}
use poc_event_manager.App12.Events.{
  EventType, status, control, serial, Event, status_event, control_event, serial_event,
}

abbrev pub max_queue_size : ℕ
max_queue_size = 3500000

-- The members that the three classes share. `consumed` is what Consume has printed, oldest first.
pub record Manager (Q : Type 0) : Type 0 where
  pub auto_id : AutoId
  pub tx_event : PipedEvent
  pub tx_queue : Q
  pub counters : Counters
  pub consumed : List Event

pub record ManagerA (Q : Type 0) : Type 0 where
  pub base : Manager Q
  pub open base use *
  pub counter : ℕ  -- uint32_t

-- The event that _runImpl of ManagerB sends, and of ManagerA every other time.
abbrev pub serial_message : Event
serial_message = serial_event (0 ∷ 1 ∷ 2 ∷ 3 ∷ [])

abbrev pub status_message : Event
status_message = status_event (pos 0) "{\"status\":\"ok\"}"

abbrev pub control_message : Event
control_message = control_event (pos 0) "{\"status\":\"ok\"}"

abbrev pub will_consume_a : List EventType
will_consume_a = control ∷ serial ∷ []

abbrev pub will_consume_b : List EventType
will_consume_b = serial ∷ []

abbrev pub will_consume_c : List EventType
will_consume_c = status ∷ []

module _ {Q : Type 0} (lib : SpscQueue Event Q) where
  open lib use {make, try_emplace, contents}

  abbrev pub new_manager : AutoId → PipedEvent → Manager Q
  new_manager id e = record {
    auto_id = id;
    tx_event = e;
    tx_queue = make max_queue_size;
    counters = zero_counters;
    consumed = [];
  }

  -- The end of each _runImpl: try to queue the event, count, and fire.
  unfoldable pub send : Event → Manager Q → Manager Q
  send e m =
      let r = try_emplace e m.tx_queue in
      if r.0
      then record m {
        tx_queue = r.1;
        counters = increment_tx m.counters;
        tx_event = fire m.tx_event;
      }
      else record m { tx_queue = r.1; counters = increment_dropped m.counters }

  unfoldable pub run_impl_a : ManagerA Q → ManagerA Q
  run_impl_a m = record m {
    base = send (if m.counter % 2 == 0 then status_message else serial_message) m.base;
    counter = (m.counter + 1) % 2 ^ 32;
  }

  unfoldable pub run_impl_b : Manager Q → Manager Q
  run_impl_b m = send serial_message m

  unfoldable pub run_impl_c : Manager Q → Manager Q
  run_impl_c m = send control_message m

  unfoldable pub consume_event : Event → Manager Q → Manager Q
  consume_event e m = record m {
    counters = increment_rx m.counters;
    consumed = m.consumed ++ e ∷ [];
  }

  -- Produce resets the signal, then empties the queue. The loop's fuel is one more than the queue
  -- holds.
  unfoldable pub produce : Manager Q → Option (List Event × Manager Q)
  produce m =
      let e = consume m.tx_event in
      drain (front_round lib) (suc (length (contents m.tx_queue))) m.tx_queue []
      >>= (λ r. some (r.0, record m { tx_event = e; tx_queue = r.1 }))
