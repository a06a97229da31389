-- ===== src/Event.antt =====
-- The events of main.cpp and app1.cpp to app11.cpp, declared alike in each: a base with a type tag,
-- and two classes, each with a number. The event is owned by one pointer at a time and moved, never
-- copied.
use native.Mathlib.Decide.{ℕ_discrete}
use poc_event_manager.Prelude.{ℤ}

pub data EventType : Type 0 where
  event_type_a event_type_b : EventType

pub data Event : Type 0 where
  event_a : (data_a : ℤ) → Event
  event_b : (data_b : ℤ) → Event

-- `event->type`, set by the constructors of the two classes.
abbrev pub event_type : Event → EventType
event_type (event_a _) = event_type_a
event_type (event_b _) = event_type_b

event-discrete : Discrete Event
event-discrete = hlevel (ℕ_discrete)

pub Event-IsSet : IsSet Event
Event-IsSet = hlevel (event-discrete)
