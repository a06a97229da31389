-- ===== src/Wrapper/Calls.antt =====
-- One thread's calls through a Wrapper.
use poc_event_manager.Prelude.{
  ℕ, zero, suc, ◌<◌, ◌≡◌, refl, false, Option, none, some, ◌>>=◌, List, [], ◌∷◌, ◌++◌, length,
  arith, ap,
}
use poc_event_manager.Wrapper.Defs.{Wrapper, arrow, call, splice_one, append_one}

-- `w->method(...)` as a statement, for each method in turn.
unfoldable pub call_all {ℓ} :
    {T : Type ℓ} → List (T → Unit {0} × T) → Wrapper T → Option (Wrapper T)
call_all [] w = some w
call_all (f ∷ fs) w = call f w >>= (λ r. call_all fs r.1)

abbrev pub apply_all {ℓ} : {T : Type ℓ} → List (T → Unit {0} × T) → T → T
apply_all [] x = x
apply_all (f ∷ fs) x = apply_all fs (f x).1

-- A free wrapper is transparent: any calls through it, one after the other, never block, do to the
-- object what the calls without it do, and leave the mutex free.
pub call_all-apply_all {ℓ} :
    {T : Type ℓ} (fs : List (T → Unit {0} × T)) (w : Wrapper T)
    → w.locked ≡ false
    → call_all fs w ≡ some (record { value = apply_all fs w.value; locked = false })
unfolding call_all call
call_all-apply_all [] w h = ground arith
call_all-apply_all (f ∷ fs) w h =
    rw h (call_all-apply_all fs (record { value = (f w.value).1; locked = false }) refl)

-- While a proxy lives, as in `w->f(w->g())` or in Append, every further call through the same
-- wrapper blocks for ever, whatever the method.
pub call-while_held {ℓ} :
    {T R : Type ℓ} (w held : Wrapper T) (method : T → R × T)
    → arrow w ≡ some held
    → call method held ≡ none
unfolding call arrow
call-while_held w held method h = ground arith

splice_one_lem :
    {A : Type 0} (xs : List A) (at : ℕ)
    → at < length xs
    → (x : A) × (before : List A) × (after : List A) × (splice_one xs at
        ≡ some (x, before ++ after))
      × (xs ≡ before ++ x ∷ after)
      × (length before ≡ at)
unfolding splice_one
splice_one_lem [] at h = absurd (omega arith)
splice_one_lem (x ∷ xs) zero h = (x, [], xs, refl, refl, refl)
splice_one_lem (x ∷ xs) (suc at) h =
    let (y, before, after, e, split, n) = splice_one_lem xs at (omega arith) in
    (y, x ∷ before, after, rw e, ap (◌∷◌ x) split, omega (arith, n))

-- Append of one element, at a position within the list and with the mutex free: exactly the element
-- at that position moves, to the end of the queue; the others keep their order; and the mutex is
-- free again.
pub append_one-moves :
    {A : Type 0} (to : Wrapper (List A)) (from : List A) (at : ℕ)
    → to.locked ≡ false
    → at < length from
    → (x : A) × (before : List A) × (after : List A) × (append_one to from at
        ≡ some (record { value = to.value ++ x ∷ []; locked = false }, before ++ after))
      × (from ≡ before ++ x ∷ after)
      × (length before ≡ at)
unfolding append_one
append_one-moves to from at h k =
    let (x, before, after, e, split, n) = splice_one_lem from at k in
    (x, before, after, rw (h, e), split, n)
