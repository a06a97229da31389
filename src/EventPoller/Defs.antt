-- ===== src/EventPoller/Defs.antt =====
-- The class EventPoller of inc/EventPoller.h. What a system call returns is an argument of the
-- method that makes it. `P` and `C` are the weak pointers to producers and consumers, `S` is the
-- memory in which the objects live.
use poc_event_manager.Prelude.{
  Bool, ◌&&◌, Option, none, some, ◌>>=◌, List, [], ◌∷◌, ℤ, pos, ◌==ℤ◌, minus_one, if◌then◌else◌,
  lookup, insert, int_eq,
}

-- What can be done with the pointers: `lock` (does it give an object?), and the virtual calls.
-- A `none` of `produce` is a call that faults.
pub record Objects (P C E S : Type 0) : Type 0 where
  pub lock_producer : P → S → Bool
  pub lock_consumer : C → S → Bool
  pub produce : P → S → Option (List E × S)
  pub consume : C → E → S → S

pub record EventPoller (P C : Type 0) : Type 0 where
  pub fd : ℤ
  pub watchers : List (ℤ × (P × C))

-- `Add(flags, fd)`: what it returns, `ctl` being what epoll_ctl would return.
unfoldable pub add_fd : ℤ → ℤ → ℤ
add_fd ctl fd = if fd ==ℤ minus_one then pos 0 else ctl

module _ {P C : Type 0} where
  -- The constructor throws where epoll_create1 returns -1.
  unfoldable pub construct : ℤ → Option (EventPoller P C)
  construct created =
      if created ==ℤ minus_one then none else some (record { fd = created; watchers = [] })

  -- `Add(flags, fd, producer, consumer)`
  unfoldable pub add : ℤ → ℤ → P → C → EventPoller P C → ℤ × EventPoller P C
  unfolding add_fd
  add ctl fd p c poller =
      if fd ==ℤ minus_one
      then (pos 0, poller)
      else let ret = add_fd ctl fd in
        if ret ==ℤ pos 0
        then (ret, record poller { watchers = insert fd (p, c) poller.watchers })
        else (ret, poller)

  -- `Remove(fd)` leaves the map alone.
  unfoldable pub remove : ℤ → ℤ → EventPoller P C → ℤ × EventPoller P C
  remove ctl fd poller = (ctl, poller)

-- The loop of Execute over what Produce returned.
unfoldable pub consume_all : {P C E S : Type 0} → Objects P C E S → C → List E → S → S
consume_all ops c [] s = s
consume_all ops c (e ∷ es) s = consume_all ops c es (ops.consume c e s)

module _ {P C E S : Type 0} (ops : Objects P C E S) where
  unfoldable pub execute_pair : P → C → S → Option S
  unfolding consume_all
  execute_pair p c s =
      if ops.lock_producer p s && ops.lock_consumer c s
      then ops.produce p s >>= (λ r. some (consume_all ops c r.0 r.1))
      else some s

  unfoldable pub execute : EventPoller P C → ℤ → S → Option S
  unfolding execute_pair lookup
  execute poller fd s = elim (lookup fd poller.watchers) [
    | none ↦ some s
    | some (p, c) ↦ execute_pair p c s
  ]

  -- The loop of the mains over the events that `Wait` reported.
  unfoldable pub execute_all : EventPoller P C → List ℤ → S → Option S
  execute_all poller [] s = some s
  execute_all poller (fd ∷ fds) s = execute poller fd s >>= execute_all poller fds
