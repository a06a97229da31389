-- ===== src/Prometheus/Interface.antt =====
-- inc/IPrometheus.h. `H` are the pointers that AddCounter returns, `R` is the state of the server.
use Prim.Native.String.{String}
use poc_event_manager.Prelude.{ℕ, ◌+◌, ◌≡◌, ◌≢◌, Bool, true, Option, none, some}

pub record IPrometheus (H R : Type 0) : Type 0 where
  pub add_counter : String → String → R → Option (H × R)  -- name and help; `none`: it throws
  pub increment_counter : H → R → R

-- What a server promises. A counter has a name, under which its value is published.
pub record IsCounting {H R : Type 0} (prom : IPrometheus H R) : Type 0 where
  pub is_name : String → Bool  -- the names that it takes
  pub named : String → R → Option H
  pub value : H → R → ℕ
  pub named_distinct :
      (r : R) (n k : String) (h : H) → named n r ≡ some h → named k r ≡ some h → n ≡ k
  -- A counter of that name is used again, and else made with the value 0; no other is touched.
  pub add_lem :
      (n help : String) (r : R)
      → is_name n ≡ true
      → (h : H) × (r' : R) × (prom.add_counter n help r ≡ some (h, r'))
        × (named n r' ≡ some h)
        × (named n r ≡ none → value h r' ≡ 0)
        × ((k : String) (g : H)
            → named k r ≡ some g
            → (named k r' ≡ some g) × (value g r' ≡ value g r))
        × ((k : String) → k ≢ n → named k r' ≡ named k r)
  -- One is added to the counter, and to no other.
  pub increment_lem :
      (h : H) (r : R)
      → ((n : String) → named n (prom.increment_counter h r) ≡ named n r)
        × (value h (prom.increment_counter h r) ≡ value h r + 1)
        × ((g : H) → g ≢ h → value g (prom.increment_counter h r) ≡ value g r)
