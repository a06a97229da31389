-- ===== src/App12/Events.antt =====
-- Event and its classes. An event is owned by one pointer; `Clone` makes the copies.
use Prim.Native.String.{String}
use poc_event_manager.Prelude.{ℕ, ◌≡◌, ◌↔◌, Bool, true, false, List, ℤ, pos, Eq, arith}

pub data EventType : Type 0 where
  status control error serial : EventType

pub data Event : Type 0 where
  status_event : (target : ℤ) (json : String) → Event
  control_event : (target : ℤ) (json : String) → Event
  serial_event : (bytes : List ℕ) → Event

abbrev pub event_type : Event → EventType
event_type (status_event _ _) = status
event_type (control_event _ _) = control
event_type (serial_event _) = serial

abbrev pub event_target : Event → ℤ
event_target (status_event t _) = t
event_target (control_event t _) = t
event_target (serial_event _) = pos 0

-- The three overrides of Clone build a new object from the members of the old one.
unfoldable pub clone : Event → Event
clone (status_event t j) = status_event t j
clone (control_event t j) = control_event t j
clone (serial_event d) = serial_event d

abbrev pub type_eq : EventType → EventType → Bool
type_eq status status = true
type_eq control control = true
type_eq error error = true
type_eq serial serial = true
type_eq _ _ = false

pub type_eq_iff : (a b : EventType) → (type_eq a b ≡ true) ↔ (a ≡ b)
type_eq_iff status b = ground arith
type_eq_iff control b = ground arith
type_eq_iff error b = ground arith
type_eq_iff serial b = ground arith

instance abbrev pub event_type_eq : Eq EventType
event_type_eq = record { beq = type_eq; beq_iff = type_eq_iff }
