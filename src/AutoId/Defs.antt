-- ===== src/AutoId/Defs.antt =====
-- The counter is a std::atomic<std::int32_t>. Its value is kept as the 32-bit pattern, on which
-- `fetch_add` wraps around.
use poc_event_manager.Prelude.{ℕ, zero, suc, ◌+◌, ◌%◌, ◌^◌, ℤ, to_int32, List, [], ◌∷◌}

pub record AutoId : Type 0 where
  pub id : ℕ

-- `counter.fetch_add(1)`: the old value, and the counter after it.
pub fetch_add : ℕ → ℕ × ℕ
fetch_add counter = (counter, (counter + 1) % 2 ^ 32)

-- The member initialiser, run by the constructor.
unfoldable pub construct : ℕ → AutoId × ℕ
unfolding fetch_add
construct counter = let (old, counter') = fetch_add counter in (record { id = old }, counter')

abbrev pub get_auto_id : AutoId → ℤ
get_auto_id a = to_int32 a.id

-- `n` constructions in a row.
unfoldable pub construct_all : ℕ → ℕ → List AutoId
construct_all zero counter = []
construct_all (suc n) counter =
    let (a, counter') = construct counter in a ∷ construct_all n counter'
