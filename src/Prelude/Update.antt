-- ===== src/Prelude/Update.antt =====
-- Functions on numbers, changed at one number.
use Prim.Native.Nat.{ℕ}
use poc_event_manager.Prelude.Tests.{◌==◌, if◌then◌else◌}

abbrev pub update {ℓ} : {A : Type ℓ} → (ℕ → A) → ℕ → A → ℕ → A
update f i x j = if i == j then x else f j
