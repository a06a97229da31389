-- ===== src/Wrapper/Defs.antt =====
-- Wrapper, CallProxy, Unlock and the two functions Append. `none` is a lock that never comes: the
-- mutex is not recursive, and is locked already.
use poc_event_manager.Prelude.{
  ℕ, Bool, true, false, Option, none, some, ◌>>=◌, List, [], ◌∷◌, ◌++◌, if◌then◌else◌,
}

pub record Wrapper {ℓ} (T : Type ℓ) : Type ℓ where
  pub value : T  -- _data
  pub locked : Bool  -- _mutex

module _ {ℓ} {T : Type ℓ} where
  -- `_mutex.lock()` in `Wrapper::operator->`, which then makes the proxy.
  unfoldable pub arrow : Wrapper T → Option (Wrapper T)
  arrow w = if w.locked then none else some (record w { locked = true })

  -- `~CallProxy`, which calls the suffix `Unlock`.
  unfoldable pub destroy_proxy : Wrapper T → Wrapper T
  destroy_proxy w = record w { locked = false }

  -- `w->method(...)`: the proxy lives to the end of the full expression.
  unfoldable pub call {κ} : {R : Type κ} → (T → R × T) → Wrapper T → Option (R × Wrapper T)
  unfolding arrow destroy_proxy
  call method w = do
    held ← arrow w
    let r = method held.value
    some (r.0, destroy_proxy (record held { value = r.1 }))

-- `Append(to, from, at)`, which moves the element at position `at` of `from`. The proxy lives to
-- the end of the function. A position past the end is undefined behaviour.
unfoldable pub splice_one {ℓ} : {A : Type ℓ} → List A → ℕ → Option (A × List A)
splice_one [] at = none
splice_one (x ∷ xs) ℕ.zero = some (x, xs)
splice_one (x ∷ xs) (ℕ.suc at) = splice_one xs at >>= (λ r. some (r.0, x ∷ r.1))

module _ {ℓ} {A : Type ℓ} where
  unfoldable pub append_one : Wrapper (List A) → List A → ℕ → Option (Wrapper (List A) × List A)
  unfolding splice_one arrow destroy_proxy
  append_one to from at = do
    queue ← arrow to
    r ← splice_one from at
    some (destroy_proxy (record queue { value = queue.value ++ r.0 ∷ [] }), r.1)

  -- `Append(to, std::move(from))`, which moves all elements.
  unfoldable pub append_all : Wrapper (List A) → List A → Option (Wrapper (List A) × List A)
  unfolding arrow destroy_proxy
  append_all to from = do
    queue ← arrow to
    some (destroy_proxy (record queue { value = queue.value ++ from }), [])
