-- ===== src/Wrapper/Exclusion.antt =====
-- Many threads that call through one Wrapper.
use poc_event_manager.Prelude.{update, ℕ, ◌≡◌, Bool, true, false, some, arith}
use poc_event_manager.Wrapper.Defs.{Wrapper, arrow, destroy_proxy}

pub record System {ℓ} (T : Type ℓ) : Type ℓ where
  pub wrapper : Wrapper T
  pub holds : ℕ → Bool  -- the threads that have a live proxy

-- One step of thread `i`: it makes a proxy, calls a method of the object, or drops the proxy.
pub data Step {ℓ} {T : Type ℓ} (s : System T) : System T → Type ℓ where
  enters :
      (i : ℕ) {w : Wrapper T}
      → s.holds i ≡ false
      → arrow s.wrapper ≡ some w
      → Step s (record { wrapper = w; holds = update s.holds i true })
  acts :
      (i : ℕ) (method : T → T)
      → s.holds i ≡ true
      → Step s (record {
        wrapper = record { value = method s.wrapper.value; locked = s.wrapper.locked };
        holds = s.holds;
      })
  leaves :
      (i : ℕ)
      → s.holds i ≡ true
      → Step s (record { wrapper = destroy_proxy s.wrapper; holds = update s.holds i false })

pub data Reach {ℓ} {T : Type ℓ} (x : T) : System T → Type ℓ where
  start : Reach x (record { wrapper = record { value = x; locked = false }; holds = λ i. false })
  later : {s t : System T} → Reach x s → Step s t → Reach x t

pub record Inv {ℓ} {T : Type ℓ} (s : System T) : Type ℓ where
  pub unique : (i j : ℕ) → s.holds i ≡ true → s.holds j ≡ true → i ≡ j
  pub guarded : (i : ℕ) → s.holds i ≡ true → s.wrapper.locked ≡ true

module _ {ℓ} {T : Type ℓ} where
  Step-Inv : {s t : System T} → Step s t → Inv s → Inv t
  unfolding arrow destroy_proxy
  Step-Inv {s} (enters i free e) v = record {
    unique = λ a b ha hb. ground (arith, v.guarded a, v.guarded b);
    guarded = λ a h. ground arith;
  }
  Step-Inv (acts i method h) v = record { unique = v.unique; guarded = v.guarded }
  Step-Inv (leaves i h) v = record {
    unique = λ a b ha hb. ground (arith, v.unique a b);
    guarded = λ a ha. ground (arith, v.unique i a h);
  }

  Reach-Inv : {x : T} {s : System T} → Reach x s → Inv s
  Reach-Inv start = record { unique = λ i j h k. cc; guarded = λ i h. cc }
  Reach-Inv (later r st) = Step-Inv st (Reach-Inv r)

  -- In every interleaving of any number of threads, two threads never have a proxy of one wrapper
  -- at the same time, so their calls of its methods never overlap.
  pub mutual_exclusion :
      {x : T} {s : System T} → Reach x s → (i j : ℕ) → s.holds i ≡ true → s.holds j ≡ true → i ≡ j
  mutual_exclusion r = (Reach-Inv r).unique
