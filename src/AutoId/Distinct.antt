-- ===== src/AutoId/Distinct.antt =====
-- Which objects share a number.
use poc_event_manager.Prelude.{
  ℕ, zero, suc, ◌+◌, ◌%◌, ◌^◌, ◌≤◌, ◌<◌, ◌≡◌, get_elem?, some, to_int32-injective, arith,
}
use poc_event_manager.AutoId.Defs.{AutoId, construct, construct_all, get_auto_id}

-- The object built `i` rounds after the counter showed `c` has the pattern `c + i`.
id-construct_all :
    (n c i : ℕ) (a : AutoId)
    → c < 2 ^ 32
    → get_elem? (construct_all n c) i ≡ some a
    → a.id ≡ (c + i) % 2 ^ 32
unfolding construct_all construct
id-construct_all zero c i a h e = cc
id-construct_all (suc n) c zero a h e = ground arith
id-construct_all (suc n) c (suc i) a h e = ground (arith, id-construct_all n ((c + 1) % 2 ^ 32) i a)

index_bound : (n c i : ℕ) (a : AutoId) → get_elem? (construct_all n c) i ≡ some a → i < n
unfolding construct_all construct
index_bound zero c i a e = cc
index_bound (suc n) c zero a e = omega arith
index_bound (suc n) c (suc i) a e = omega (arith, index_bound n ((c + 1) % 2 ^ 32) i a e)

-- Among at most 2^32 objects built in one run of the program, from any value of the counter, no two
-- report the same number, even where the counter wraps around.
pub get_auto_id-distinct :
    (n c i j : ℕ) (a b : AutoId)
    → n ≤ 2 ^ 32
    → c < 2 ^ 32
    → get_elem? (construct_all n c) i ≡ some a
    → get_elem? (construct_all n c) j ≡ some b
    → get_auto_id a ≡ get_auto_id b
    → i ≡ j
get_auto_id-distinct n c i j a b hn hc ea eb same = omega (
  arith,
  id-construct_all n c i a hc ea,
  id-construct_all n c j b hc eb,
  index_bound n c i a ea,
  index_bound n c j b eb,
  to_int32-injective a.id b.id (omega (arith, id-construct_all n c i a hc ea))
      (omega (arith, id-construct_all n c j b hc eb)) same,
)
