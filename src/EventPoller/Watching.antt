-- ===== src/EventPoller/Watching.antt =====
-- What `Add` registers.
use poc_event_manager.Prelude.{
  ◌&&◌, not, ◌≡◌, some, ℤ, pos, ◌==ℤ◌, minus_one, if◌then◌else◌, lookup, lookup-insert, int_eq,
  arith,
}
use poc_event_manager.EventPoller.Defs.{EventPoller, add}

-- Add returns what epoll_ctl returned, or 0 for the descriptor -1, for which it does nothing. A
-- later event on a descriptor finds the new pair exactly if it is the added descriptor, not -1, and
-- epoll_ctl returned 0; on any other descriptor, or after a failure, it finds what it found before.
pub lookup-add :
    {P C : Type 0} (ctl fd j : ℤ) (p : P) (c : C) (poller : EventPoller P C)
    → ((add ctl fd p c poller).0 ≡ (if fd ==ℤ minus_one then pos 0 else ctl))
      × (lookup j (add ctl fd p c poller).1.watchers ≡ (
          if not (fd ==ℤ minus_one) && (ctl ==ℤ pos 0) && (fd ==ℤ j)
          then some (p, c)
          else lookup j poller.watchers))
unfolding add
lookup-add ctl fd j p c poller =
    (ground arith, ground (arith, lookup-insert fd j (p, c) poller.watchers))
