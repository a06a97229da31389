-- ===== src/App12/Main.antt =====
-- The objects of app12.cpp, three managers and a router, and `main` up to its loop.
use poc_event_manager.Prelude.{true, Option, none, some, ◌>>=◌, ℤ, if◌then◌else◌}
use poc_event_manager.AutoId.Defs.{get_auto_id, construct as construct_id}
use poc_event_manager.PipedEvent.Defs.{PipedEvent, construct as construct_event}
use poc_event_manager.Queues.Spsc.{SpscQueue}
use poc_event_manager.App12.Events.{Event}
use poc_event_manager.App12.Router.{EventRouter, Members, construct, add_producer, add_consumer}
use poc_event_manager.App12.Managers.{
  Manager, ManagerA, new_manager, run_impl_a, run_impl_b, run_impl_c, consume_event, produce,
  will_consume_a, will_consume_b, will_consume_c,
}

-- The pointers that `main` hands to the router.
pub data Ref : Type 0 where
  ref_a ref_b ref_c : Ref

pub record System (Q : Type 0) : Type 0 where
  pub a : ManagerA Q
  pub b : Manager Q
  pub c : Manager Q

-- What epoll_ctl returned in the three calls of AddProducer.
pub record Controls : Type 0 where
  pub ctl_a : ℤ
  pub ctl_b : ℤ
  pub ctl_c : ℤ

abbrev pub manager_of : {Q : Type 0} → Ref → System Q → Manager Q
manager_of ref_a s = s.a.base
manager_of ref_b s = s.b
manager_of ref_c s = s.c

abbrev pub with_manager : {Q : Type 0} → Ref → Manager Q → System Q → System Q
with_manager ref_a m s = record s { a = record { base = m; counter = s.a.counter } }
with_manager ref_b m s = record s { b = m }
with_manager ref_c m s = record s { c = m }

-- What holds of each manager still does after one is replaced by another of which it holds.
pub with_manager-all :
    {Q : Type 0} (P : Ref → Manager Q → Type 0) (c : Ref) (m : Manager Q) (s : System Q)
    → P c m
    → ((p : Ref) → P p (manager_of p s))
    → (p : Ref) → P p (manager_of p (with_manager c m s))
with_manager-all P ref_a m s h k ref_a = h
with_manager-all P ref_a m s h k ref_b = k ref_b
with_manager-all P ref_a m s h k ref_c = k ref_c
with_manager-all P ref_b m s h k ref_a = k ref_a
with_manager-all P ref_b m s h k ref_b = h
with_manager-all P ref_b m s h k ref_c = k ref_c
with_manager-all P ref_c m s h k ref_a = k ref_a
with_manager-all P ref_c m s h k ref_b = k ref_b
with_manager-all P ref_c m s h k ref_c = h

module _ {Q : Type 0} (lib : SpscQueue Event Q) where
  -- `main` keeps the three objects alive. Each has one AutoId, as producer and as consumer, since
  -- AutoId is a virtual base class.
  abbrev pub members : Members Ref Ref (System Q)
  members = record {
    objects = record {
      lock_producer = λ p s. true;
      lock_consumer = λ c s. true;
      produce = λ p s. produce lib (manager_of p s) >>= (λ r. some (r.0, with_manager p r.1 s));
      consume = λ c e s. with_manager c (consume_event lib e (manager_of c s)) s;
    };
    producer_id = λ p s. get_auto_id (manager_of p s).auto_id;
    consumer_id = λ c s. get_auto_id (manager_of c s).auto_id;
  }

  -- The counter of AutoId starts at 0.
  unfoldable pub assemble : PipedEvent → PipedEvent → PipedEvent → System Q
  unfolding construct_id
  assemble event_a event_b event_c =
      let id_a = construct_id 0 in
      let id_b = construct_id id_a.1 in
      let id_c = construct_id id_b.1 in
      record {
        a = record { base = new_manager lib id_a.0 event_a; counter = 0 };
        b = new_manager lib id_b.0 event_b;
        c = new_manager lib id_c.0 event_c;
      }

  -- The three objects, from the results of the calls of `pipe`.
  unfoldable pub build : Option (ℤ × ℤ) → Option (ℤ × ℤ) → Option (ℤ × ℤ) → Option (System Q)
  unfolding assemble construct_event
  build fds_a fds_b fds_c = do
    event_a ← construct_event fds_a
    event_b ← construct_event fds_b
    event_c ← construct_event fds_c
    some (assemble event_a event_b event_c)

  -- An AddProducer that throws ends the program.
  unfoldable pub producing : ℤ → Ref → System Q → EventRouter Ref Ref → Option (EventRouter Ref Ref)
  producing ctl p s r =
      let added = add_producer ctl (manager_of p s).tx_event.source p r in
      if added.1 then none else some added.0

  -- The calls of AddProducer and AddConsumer.
  unfoldable pub wire : Controls → System Q → EventRouter Ref Ref → Option (EventRouter Ref Ref)
  unfolding producing
  wire ctls s r = do
    r1 ← producing ctls.ctl_a ref_a s r
    r2 ← producing ctls.ctl_b ref_b s r1
    r3 ← producing ctls.ctl_c ref_c s r2
    some (
        add_consumer will_consume_c ref_c
          (add_consumer will_consume_b ref_b (add_consumer will_consume_a ref_a r3)))

  -- `main` up to its loop, with the results of `pipe` and epoll_create1. The server, the managers' own
  -- pollers and AddCounter are assumed to throw nothing.
  unfoldable pub start :
      Option (ℤ × ℤ)
      → Option (ℤ × ℤ)
      → Option (ℤ × ℤ)
      → ℤ
      → Controls
      → Option (System Q × EventRouter Ref Ref)
  unfolding build wire
  start fds_a fds_b fds_c created ctls = do
    s ← build fds_a fds_b fds_c
    r ← construct created
    router ← wire ctls s r
    some (s, router)

  unfoldable pub run_thread : Ref → System Q → System Q
  run_thread ref_a s = record s { a = run_impl_a lib s.a }
  run_thread ref_b s = record s { b = run_impl_b lib s.b }
  run_thread ref_c s = record s { c = run_impl_c lib s.c }
