-- ===== src/PipedEvent/Defs.antt =====
-- The class PipedEvent of inc/PipedEvent.h. A system call is an effect on a log; its result, where
-- the code reads it, is an argument. The results of `write` and `read` are not read by the code.
use poc_event_manager.Prelude.{
  Bool, true, false, ◌&&◌, not, Option, none, some, List, [], ◌∷◌, ℤ, pos, ◌==ℤ◌, if◌then◌else◌,
}

pub data SystemCall : Type 0 where
  write_byte read_byte close_fd : ℤ → SystemCall

pub record PipedEvent : Type 0 where
  pub source : ℤ  -- _fds[0]
  pub sink : ℤ  -- _fds[1]
  pub fired : Bool
  pub log : List SystemCall  -- newest first

-- The constructor, from what `pipe` returned: the two descriptors, or `none` for -1, on which it
-- throws.
unfoldable pub construct : Option (ℤ × ℤ) → Option PipedEvent
construct none = none
construct (some (source, sink)) =
    some (record { source = source; sink = sink; fired = false; log = [] })

unfoldable pub fire : PipedEvent → PipedEvent
fire e =
    if not (e.source ==ℤ pos 0) && not e.fired
    then record e { fired = true; log = write_byte e.sink ∷ e.log }
    else e

unfoldable pub consume : PipedEvent → PipedEvent
consume e =
    if not (e.source ==ℤ pos 0) && e.fired
    then record e { fired = false; log = read_byte e.source ∷ e.log }
    else e

abbrev pub get_source : PipedEvent → ℤ
get_source e = e.source

abbrev pub get_sink : PipedEvent → ℤ
get_sink e = e.sink

abbrev pub get_fds : PipedEvent → ℤ × ℤ
get_fds e = (e.source, e.sink)

-- `ret` is what `close` returns, if it is called. The method returns it.
unfoldable pub close_source : ℤ → PipedEvent → ℤ × PipedEvent
close_source ret e =
    if e.source ==ℤ pos 0
    then (pos 0, e)
    else let e' = record e { log = close_fd e.source ∷ e.log } in
      if ret ==ℤ pos 0 then (ret, record e' { source = pos 0 }) else (ret, e')

unfoldable pub close_sink : ℤ → PipedEvent → ℤ × PipedEvent
close_sink ret e =
    if e.sink ==ℤ pos 0
    then (pos 0, e)
    else let e' = record e { log = close_fd e.sink ∷ e.log } in
      if ret ==ℤ pos 0 then (ret, record e' { sink = pos 0 }) else (ret, e')

-- The destructor, from the results of its calls of `close`.
unfoldable pub destroy : ℤ → ℤ → PipedEvent → PipedEvent
unfolding close_source close_sink
destroy ret_source ret_sink e = (close_sink ret_sink (close_source ret_source e).1).1
