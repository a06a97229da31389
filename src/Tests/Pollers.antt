-- ===== src/Tests/Pollers.antt =====
-- inc/EventPoller.h: pairs that are added, replaced and refused.
use poc_event_manager.Prelude.{ℕ, ◌≡◌, refl, true, some, List, [], ◌∷◌, ◌++◌, ℤ, pos, minus_one}
use poc_event_manager.EventPoller.Defs.{EventPoller, Objects, construct, execute_all}
use poc_event_manager.EventPoller.Registered.{
  Added, add_all, last_added, serve, serve_all, execute_all-add_all,
}

-- A producer makes its own number; a consumer notes its own and the event.
abbrev noting : Objects ℕ ℕ ℕ (List ℕ)
noting = record {
  lock_producer = λ p s. true;
  lock_consumer = λ c s. true;
  produce = λ p s. some (p ∷ [], s);
  consume = λ c e s. s ++ c ∷ e ∷ [];
}

abbrev empty : EventPoller ℕ ℕ
empty = record { fd = pos 5; watchers = [] }

abbrev accepted : ℤ → ℕ → ℕ → Added ℕ ℕ
accepted fd p c = record { ctl = pos 0; fd = fd; producer = p; consumer = c }

-- Descriptor 4 is added twice, -1 not at all, and epoll_ctl refuses the second call for 3.
abbrev some_added : List (Added ℕ ℕ)
some_added =
    accepted (pos 4) 10 11
    ∷ accepted (pos 3) 30 31
    ∷ accepted minus_one 50 51
    ∷ accepted (pos 4) 40 41
    ∷ record { ctl = minus_one; fd = pos 3; producer = 60; consumer = 61 }
    ∷ []

execute_all-add_all_example :
    execute_all noting (add_all some_added empty) (pos 4 ∷ pos 3 ∷ minus_one ∷ []) []
    ≡ serve_all noting (last_added some_added) (pos 4 ∷ pos 3 ∷ minus_one ∷ []) []
unfolding construct
execute_all-add_all_example =
    execute_all-add_all noting (pos 5) empty some_added (pos 4 ∷ pos 3 ∷ minus_one ∷ []) [] refl

-- What the reports lead to.
noted :
    serve_all noting (last_added some_added) (pos 4 ∷ pos 3 ∷ minus_one ∷ []) []
    ≡ some (41 ∷ 40 ∷ 31 ∷ 30 ∷ [])
unfolding last_added serve serve_all
noted = refl
