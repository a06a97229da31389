-- ===== src/LockeFreeQueue/Sequences.antt =====
-- inc/LockeFreeQueue.h under sequences of whole calls, next to a list.
use poc_event_manager.Prelude.{
  ℕ, ◌≡◌, refl, Option, some, ◌>>=◌, List, [], ◌∷◌, ◌++◌, length, drop, drop-append, drop_all,
  length-append, arith, ◌∙◌, sym, ap,
}
use poc_event_manager.LockeFreeQueue.Defs.{State}
use poc_event_manager.LockeFreeQueue.Correct.{Reach-IsPrefix}
use poc_event_manager.LockeFreeQueue.Calls.{IsQuiet, emplace_back, swap, emplace_back_lem, swap_lem}

pub data Call (T : Type 0) : Type 0 where
  appends : ℕ → T → Call T  -- emplace_back by a thread
  swaps : Call T  -- swap with an empty list

module _ {T : Type 0} where
  -- What is then in the list `out`.
  swap_out : State T → Option (List T × State T)
  swap_out s = swap s >>= (λ t. some (drop (length s.received) t.received, t))

  -- The lists that the calls of swap have filled, in order.
  unfoldable pub run_calls : List (Call T) → State T → Option (List (List T) × State T)
  unfolding swap_out
  run_calls [] s = some ([], s)
  run_calls (appends i x ∷ cs) s = emplace_back i x s >>= run_calls cs
  run_calls (swaps ∷ cs) s = do r ← swap_out s; rest ← run_calls cs r.1; some (r.0 ∷ rest.0, rest.1)

  -- The same calls on a list.
  unfoldable pub serve : List (Call T) → List T → List (List T) × List T
  serve [] q = ([], q)
  serve (appends i x ∷ cs) q = serve cs (q ++ x ∷ [])
  serve (swaps ∷ cs) q = let rest = serve cs [] in (q ∷ rest.0, rest.1)

  abbrev pub waiting : State T → List T
  waiting s = drop (length s.received) s.sent

  emplace_back-waiting :
      (i : ℕ) (x : T) (s : State T)
      → IsQuiet s
      → (t : State T) × (emplace_back i x s ≡ some t)
        × IsQuiet t
        × (waiting t ≡ waiting s ++ x ∷ [])
  emplace_back-waiting i x s q =
      let (t, e, quiet, sent, received) = emplace_back_lem i x s q in
      let (rest, p) = Reach-IsPrefix q.reach in
      (
        t,
        e,
        quiet,
        rw (sent, received)
            (drop-append (length s.received) s.sent (x ∷ [])
              (omega (arith, ap length p, length-append s.received rest))),
      )

  swap-waiting :
      (s : State T)
      → IsQuiet s
      → (t : State T) × (swap_out s ≡ some (waiting s, t)) × IsQuiet t × (waiting t ≡ [])
  unfolding swap_out
  swap-waiting s q =
      let (t, e, quiet, sent, received) = swap_lem s q in
      (
        t,
        rw e (ap (λ (l : List T). some (drop (length s.received) l, t)) received),
        quiet,
        ap (λ (l : List T). drop (length t.received) l) (sent ∙ sym received) ∙ drop_all t.received,
      )

  -- No sequence of calls tells the queue from a list `q` that is appended to and emptied: from any
  -- state with nobody inside in which `q` waits, the calls end with no fault, each swap fills its
  -- list with what the list has, and what waits in the end is the same.
  pub run_calls-serve :
      (cs : List (Call T)) (s : State T) (q : List T)
      → IsQuiet s
      → waiting s ≡ q
      → (t : State T) × (run_calls cs s ≡ some ((serve cs q).0, t))
        × IsQuiet t
        × (waiting t ≡ (serve cs q).1)
  unfolding run_calls serve
  run_calls-serve [] s q quiet h = (s, refl, quiet, h)
  run_calls-serve (appends i x ∷ cs) s q quiet h =
      let (t, e, quiet', w) = emplace_back-waiting i x s quiet in
      let (u, e', quiet'', w') =
        run_calls-serve cs t (q ++ x ∷ []) quiet' (w ∙ ap (λ (l : List T). l ++ x ∷ []) h) in
      (u, rw e e', quiet'', w')
  run_calls-serve (swaps ∷ cs) s q quiet h =
      let (t, e, quiet', w) = swap-waiting s quiet in
      let (u, e', quiet'', w') = run_calls-serve cs t [] quiet' w in
      (u, rw (e, e', h) refl, quiet'', w')
