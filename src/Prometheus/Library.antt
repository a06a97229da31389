-- ===== src/Prometheus/Library.antt =====
-- prometheus-cpp, as inc/promethues-simple-server.h uses it. `F` are families of counters, `H` are
-- counters, `G` is the memory with the registry and its counters.
use Prim.Native.String.{String}
use poc_event_manager.Prelude.{ℕ, ◌+◌, ◌≡◌, ◌≢◌, Bool, true, Option, none, some}

pub record PrometheusCpp (F H G : Type 0) : Type 0 where
  pub new_registry : G
  -- BuildCounter().Name(n).Help(help).Register(registry); `none`: it throws
  pub register : String → String → G → Option (F × G)
  pub add : F → G → H × G  -- Family::Add, with no labels
  pub increment : H → G → G  -- Counter::Increment
  -- What can be seen of a registry: which counter without labels the family of a name has, and the
  -- values.
  pub is_metric_name : String → Bool
  pub family_name : F → String
  pub named : String → G → Option H
  pub value : H → G → ℕ
  pub new_named : (n : String) → named n new_registry ≡ none
  -- A family of a good name is found or made, and no counter is touched.
  pub register_family :
      (n help : String) (g : G)
      → is_metric_name n ≡ true
      → (f : F) × (g' : G) × (register n help g ≡ some (f, g'))
        × (family_name f ≡ n)
        × ((k : String) → named k g' ≡ named k g)
        × ((h : H) → value h g' ≡ value h g)
  -- The counter with the labels is returned if there is one, and else made with the value 0.
  pub add_named : (f : F) (g : G) → named (family_name f) (add f g).1 ≡ some (add f g).0
  pub add_again : (f : F) (g : G) (h : H) → named (family_name f) g ≡ some h → (add f g).0 ≡ h
  pub add_fresh :
      (f : F) (g : G) → named (family_name f) g ≡ none → value (add f g).0 (add f g).1 ≡ 0
  pub add_other : (f : F) (g : G) (n : String) → n ≢ family_name f → named n (add f g).1 ≡ named n g
  pub add_value :
      (f : F) (g : G) (n : String) (h : H) → named n g ≡ some h → value h (add f g).1 ≡ value h g
  pub named_distinct :
      (g : G) (n k : String) (h : H) → named n g ≡ some h → named k g ≡ some h → n ≡ k
  pub increment_named : (h : H) (g : G) (n : String) → named n (increment h g) ≡ named n g
  pub increment_self : (h : H) (g : G) → value h (increment h g) ≡ value h g + 1
  pub increment_other : (h k : H) (g : G) → k ≢ h → value k (increment h g) ≡ value k g
