-- ===== src/App12/Calls.antt =====
-- `main` of app12.cpp, where threads and signals come between any two calls that it makes.
use poc_event_manager.Prelude.{
  ◌-◌, ◌^◌, ◌==◌, ◌≡◌, refl, sym, Bool, ◌&&◌, not, Option, some, ◌>>=◌, List, [], ◌∷◌, ℤ,
  Option-cases, inl, inr,
}
use poc_event_manager.Queues.Spsc.{SpscQueue}
use poc_event_manager.Loop.Defs.{Machine, handle, handle_all, deliver_all}
use poc_event_manager.Loop.Calls.{Move, Moment, moves, enter}
use poc_event_manager.App12.Events.{Event}
use poc_event_manager.App12.Router.{
  EventRouter, WaitResult, failed, reported, count_of, route_fds, wait_and_route,
}
use poc_event_manager.App12.Offers.{Offer, make_offer, take_fd, take_fd-route_fd}
use poc_event_manager.App12.Main.{Ref, System, Controls, members, run_thread, start}

-- What epoll_wait reports, and is `errno` EINTR?
abbrev pub Wait : Type 0
Wait = WaitResult × Bool

abbrev pub reports_of : Wait → List ℤ
reports_of (failed, interrupted) = []
reports_of (reported fds, interrupted) = fds

-- The loop ends where the count is that of -1 and `errno` is not EINTR.
abbrev pub ends_of : Wait → Bool
ends_of w = (count_of w.0 == 2 ^ 64 - 1) && not w.1

module _ {Q : Type 0} (lib : SpscQueue Event Q) where
  -- What the threads and the loop do.
  abbrev pub machine : EventRouter Ref Ref → Machine Ref Wait (Offer Ref Ref) (System Q)
  machine router = record {
    run_impl = λ who s. some (run_thread lib who s);
    reports = reports_of;
    ends = ends_of;
    take = λ w. take_fd (members lib) router;
    deliver = make_offer (members lib);
  }

  -- `main`, where a call that its loop makes is one step.
  unfoldable pub main :
      Option (ℤ × ℤ)
      → Option (ℤ × ℤ)
      → Option (ℤ × ℤ)
      → ℤ
      → Controls
      → List (Move Ref Wait)
      → Option (Moment Ref (Offer Ref Ref) (System Q))
  main fds_a fds_b fds_c created ctls acts =
      start lib fds_a fds_b fds_c created ctls
      >>= (λ r. moves (machine r.1) acts (enter (machine r.1) r.0))

  handle_all-route_fds :
      (router : EventRouter Ref Ref) (w : Wait) (fds : List ℤ) (s : System Q)
      → handle_all (machine router) w fds s ≡ route_fds (members lib) router fds s
  unfolding route_fds handle_all handle
  handle_all-route_fds router w [] s = refl
  handle_all-route_fds router w (fd ∷ fds) s =
      elim (Option-cases (take_fd (members lib) router fd s)) [
        | inl e ↦ rw (sym (take_fd-route_fd (members lib) router fd s), e) refl
        | inr (r, e) ↦
            rw (sym (take_fd-route_fd (members lib) router fd s), e)
              (handle_all-route_fds router w fds (deliver_all (make_offer (members lib)) r.0 r.1))
      ]

  -- A whole round is WaitAndRoute.
  handle_all-wait_and_route :
      (router : EventRouter Ref Ref) (w : Wait) (s : System Q)
      → (handle_all (machine router) w (reports_of w) s >>= (λ s'. some (count_of w.0, s')))
        ≡ wait_and_route (members lib) router w.0 s
  unfolding wait_and_route handle_all
  handle_all-wait_and_route router (failed, interrupted) s = refl
  handle_all-wait_and_route router (reported fds, interrupted) s =
      rw (handle_all-route_fds router (reported fds, interrupted) fds s) refl
