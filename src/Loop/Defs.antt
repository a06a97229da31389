-- ===== src/Loop/Defs.antt =====
-- A main loop over epoll_wait and the threads beside it: what a call of each does.
use poc_event_manager.Prelude.{Bool, false, Option, some, ◌>>=◌, List, [], ◌∷◌, ℤ}

-- `X` is what a call of _runImpl takes from outside and whose it is, `W` is what a wait gives, and
-- `D` is an event with where it goes.
pub record Machine (X W D S : Type 0) : Type 0 where
  pub run_impl : X → S → Option S
  pub reports : W → List ℤ  -- the descriptors that the wait reported
  pub ends : W → Bool  -- does the loop end by what the wait gave?
  pub take : W → ℤ → S → Option (List D × S)  -- Produce of what the descriptor leads to, if anything
  pub deliver : D → S → S  -- one call of Consume

-- A loop that goes on whatever epoll_wait reports.
abbrev pub polling :
    {X D S : Type 0}
    → (X → S → S)
    → (ℤ → S → Option (List D × S))
    → (D → S → S)
    → Machine X (List ℤ) D S
polling run_impl take deliver = record {
  run_impl = λ x s. some (run_impl x s);
  reports = λ ready. ready;
  ends = λ ready. false;
  take = λ ready. take;
  deliver = deliver;
}

unfoldable pub deliver_all : {D S : Type 0} → (D → S → S) → List D → S → S
deliver_all deliver [] s = s
deliver_all deliver (d ∷ ds) s = deliver_all deliver ds (deliver d s)

-- The reports of one round, with no call of a thread between.
module _ {X W D S : Type 0} (machine : Machine X W D S) where
  open machine use {take, deliver}

  unfoldable pub handle : W → ℤ → S → Option S
  unfolding deliver_all
  handle w fd s = take w fd s >>= (λ r. some (deliver_all deliver r.0 r.1))

  unfoldable pub handle_all : W → List ℤ → S → Option S
  unfolding handle
  handle_all w [] s = some s
  handle_all w (fd ∷ fds) s = handle w fd s >>= handle_all w fds
