-- ===== src/PipedEvent/Closing.antt =====
-- The two descriptors as resources, with 0 as the mark of a closed one.
use poc_event_manager.Prelude.{
  ℕ, suc, ◌≡◌, ◌⊎◌, Bool, true, ◌&&◌, ◌||◌, List, [], ◌∷◌, ℤ, pos, ◌==ℤ◌, ◌==◌, if◌then◌else◌,
}
use poc_event_manager.PipedEvent.Defs.{
  SystemCall, write_byte, read_byte, close_fd, PipedEvent, fire, consume, close_source, close_sink,
}

-- A call of a method; `close` succeeds.
pub data Use : Type 0 where
  fires consumes closes_source closes_sink : Use

unfoldable pub use_once : Use → PipedEvent → PipedEvent
unfolding fire consume close_source close_sink
use_once fires e = fire e
use_once consumes e = consume e
use_once closes_source e = (close_source (pos 0) e).1
use_once closes_sink e = (close_sink (pos 0) e).1

unfoldable pub use_all : List Use → PipedEvent → PipedEvent
use_all [] e = e
use_all (u ∷ us) e = use_all us (use_once u e)

-- How often a descriptor was closed.
abbrev pub closes : ℤ → List SystemCall → ℕ
closes fd [] = 0
closes fd (write_byte _ ∷ l) = closes fd l
closes fd (read_byte _ ∷ l) = closes fd l
closes fd (close_fd d ∷ l) = if d ==ℤ fd then suc (closes fd l) else closes fd l

-- Does the descriptor of every call name one that was not closed before it? A byte may also be
-- written to descriptor 0.
abbrev pub orderly : List SystemCall → Bool
orderly [] = true
orderly (write_byte d ∷ l) = (d ==ℤ pos 0 || closes d l == 0) && orderly l
orderly (read_byte d ∷ l) = closes d l == 0 && orderly l
orderly (close_fd d ∷ l) = closes d l == 0 && orderly l

-- A descriptor is held and was never closed, or it is marked and was closed once.
abbrev IsTracked : ℤ → ℤ → List SystemCall → Type 0
IsTracked fd held l = ((held ≡ fd) × (closes fd l ≡ 0)) ⊎ ((held ≡ pos 0) × (closes fd l ≡ 1))

record IsTidy (a b : ℤ) (e : PipedEvent) : Type 0 where
  source_tracked : IsTracked a e.source e.log
  sink_tracked : IsTracked b e.sink e.log
  in_order : orderly e.log ≡ true
