-- ===== src/PipedEvent/Pending.antt =====
-- How many bytes stand in the pipe, whatever sequence of Fire and Consume came before.
use poc_event_manager.Prelude.{ℕ, suc, ◌+◌, ◌≡◌, refl, some, List, [], ◌∷◌, ℤ, to_ℕ, arith}
use poc_event_manager.PipedEvent.Defs.{
  SystemCall, write_byte, read_byte, close_fd, PipedEvent, construct, fire, consume,
}

abbrev pub writes : List SystemCall → ℕ
writes [] = 0
writes (write_byte _ ∷ l) = suc (writes l)
writes (read_byte _ ∷ l) = writes l
writes (close_fd _ ∷ l) = writes l

abbrev pub reads : List SystemCall → ℕ
reads [] = 0
reads (write_byte _ ∷ l) = reads l
reads (read_byte _ ∷ l) = suc (reads l)
reads (close_fd _ ∷ l) = reads l

pub data Op : Type 0 where
  fires consumes : Op

unfoldable pub apply : Op → PipedEvent → PipedEvent
unfolding fire consume
apply fires e = fire e
apply consumes e = consume e

unfoldable pub run : List Op → PipedEvent → PipedEvent
run [] e = e
run (o ∷ os) e = run os (apply o e)

abbrev Balanced : PipedEvent → Type 0
Balanced e = writes e.log ≡ reads e.log + to_ℕ e.fired

apply-Balanced : (o : Op) (e : PipedEvent) → Balanced e → Balanced (apply o e)
unfolding apply
apply-Balanced fires e b = ground arith
apply-Balanced consumes e b = ground arith

run-Balanced : (os : List Op) (e : PipedEvent) → Balanced e → Balanced (run os e)
unfolding run
run-Balanced [] e b = b
run-Balanced (o ∷ os) e b = run-Balanced os (apply o e) (apply-Balanced o e b)

-- After any calls of Fire and Consume on a new event, as many bytes were written as were read, and
-- one more exactly where the flag is set: writes never pile up, and reads never outrun them.
pub run-pending :
    (fds : ℤ × ℤ) (e : PipedEvent) (os : List Op)
    → construct (some fds) ≡ some e
    → writes (run os e).log ≡ reads (run os e).log + to_ℕ (run os e).fired
unfolding construct
run-pending (source, sink) e os h = run-Balanced os e (ground arith)

source-run : (os : List Op) (e : PipedEvent) → (run os e).source ≡ e.source
unfolding run apply
source-run [] e = refl
source-run (fires ∷ os) e = ground (arith, source-run os (fire e))
source-run (consumes ∷ os) e = ground (arith, source-run os (consume e))
