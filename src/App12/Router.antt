-- ===== src/App12/Router.antt =====
-- EventRouter of app12.cpp. What a system call returns is an argument. `P` and `C` are the weak
-- pointers to producers and consumers, `S` is the memory in which the objects live.
use poc_event_manager.Prelude.{
  ℕ, ◌-◌, ◌^◌, Bool, ◌&&◌, not, Option, none, some, ◌>>=◌, List, [], ◌∷◌, ◌++◌, ℤ, ◌==ℤ◌, minus_one,
  if◌then◌else◌, lookup, insert, int_eq, length,
}
use poc_event_manager.EventPoller.Defs.{Objects}
use poc_event_manager.App12.Events.{EventType, Event, event_type, clone, event_type_eq}

-- The calls through the pointers, and `GetAutoId` of the objects behind them.
pub record Members (P C S : Type 0) : Type 0 where
  pub objects : Objects P C Event S
  pub producer_id : P → S → ℤ
  pub consumer_id : C → S → ℤ

pub record EventRouter (P C : Type 0) : Type 0 where
  pub fd : ℤ
  pub producers : List (ℤ × P)
  pub consumers : List (EventType × List C)

module _ {P C : Type 0} where
  -- The constructor throws where epoll_create1 returns -1.
  unfoldable pub construct : ℤ → Option (EventRouter P C)
  construct created =
      if created ==ℤ minus_one
      then none
      else some (record { fd = created; producers = []; consumers = [] })

  -- `ctl` is what epoll_ctl returns; the flag tells that the method throws, with the producer
  -- already in the map.
  unfoldable pub add_producer : ℤ → ℤ → P → EventRouter P C → EventRouter P C × Bool
  add_producer ctl fd p r = (record r { producers = insert fd p r.producers }, ctl ==ℤ minus_one)

  -- `consumers[type]`, which makes an empty list for a new key.
  abbrev pub subscribers : EventType → EventRouter P C → List C
  subscribers type r = elim (lookup type r.consumers) [ none ↦ [] | some cs ↦ cs ]

  unfoldable pub add_consumer : List EventType → C → EventRouter P C → EventRouter P C
  add_consumer [] c r = r
  add_consumer (type ∷ types) c r =
      add_consumer types c
        (record r { consumers = insert type (subscribers type r ++ c ∷ []) r.consumers })

-- What `epoll_wait` reports: an error, or the descriptors that are ready.
pub data WaitResult : Type 0 where
  failed : WaitResult
  reported : List ℤ → WaitResult

-- The count as `size_t`.
abbrev pub count_of : WaitResult → ℕ
count_of failed = 2 ^ 64 - 1
count_of (reported fds) = length fds

module _ {P C S : Type 0} (members : Members P C S) where
  open members use {objects, producer_id, consumer_id}
  open objects use {lock_producer, lock_consumer, produce, consume}

  -- The innermost branch.
  unfoldable pub offer : P → Event → C → S → S
  offer p e c s =
      if lock_consumer c s && not (consumer_id c s ==ℤ producer_id p s)
      then consume c (clone e) s
      else s

  unfoldable pub offer_all : P → Event → List C → S → S
  offer_all p e [] s = s
  offer_all p e (c ∷ cs) s = offer_all p e cs (offer p e c s)

  unfoldable pub route_event : EventRouter P C → P → Event → S → S
  route_event r p e s = elim (lookup (event_type e) r.consumers) [
    | none ↦ s
    | some cs ↦ offer_all p e cs s
  ]

  unfoldable pub route_events : EventRouter P C → P → List Event → S → S
  route_events r p [] s = s
  route_events r p (e ∷ es) s = route_events r p es (route_event r p e s)

  unfoldable pub route_producer : EventRouter P C → P → S → Option S
  route_producer r p s =
      if lock_producer p s
      then produce p s >>= (λ made. some (route_events r p made.0 made.1))
      else some s

  unfoldable pub route_fd : EventRouter P C → ℤ → S → Option S
  route_fd r fd s = elim (lookup fd r.producers) [ none ↦ some s | some p ↦ route_producer r p s ]

  unfoldable pub route_fds : EventRouter P C → List ℤ → S → Option S
  route_fds r [] s = some s
  route_fds r (fd ∷ fds) s = route_fd r fd s >>= route_fds r fds

  -- The loop does not run where the count is -1, which is not positive as an `int`.
  unfoldable pub wait_and_route : EventRouter P C → WaitResult → S → Option (ℕ × S)
  wait_and_route r failed s = some (count_of failed, s)
  wait_and_route r (reported fds) s =
      route_fds r fds s >>= (λ s'. some (count_of (reported fds), s'))
