-- ===== src/CallByCall/Commuting.antt =====
-- Consume and _runImpl of app1.cpp to app11.cpp commute: Consume changes the count of received events
-- and nothing else.
use poc_event_manager.Prelude.{refl, inl, inr, Option-cases, arith}
use poc_event_manager.Event.{Event, event_a}
use poc_event_manager.Queues.ReaderWriter.{ReaderWriterQueue}
use poc_event_manager.Queues.Atomic.{AtomicQueue}
use poc_event_manager.Queues.Spsc.{SpscQueue}
use poc_event_manager.SelfLoop.Interleaved.{Commutes}
use poc_event_manager.LockeFreeQueue.Calls.{emplace_back}
use poc_event_manager.App1
use poc_event_manager.App3
use poc_event_manager.App4
use poc_event_manager.App5
use poc_event_manager.App6
use poc_event_manager.App7
use poc_event_manager.App8.Defs
use poc_event_manager.App10
use poc_event_manager.App11

pub app1_commutes : Commutes App1.manager_ops
unfolding App1.run_impl App1.consume_event
app1_commutes draws e m = ground arith

pub app3_commutes : Commutes App3.manager_ops
unfolding App3.run_impl App3.consume_event
app3_commutes draws e m = refl

pub app4_commutes : Commutes App4.manager_ops
unfolding App4.run_impl App4.consume_event
app4_commutes draw e m = refl

pub app5_commutes : {Q : Type 0} (lib : ReaderWriterQueue Event Q) → Commutes (App5.manager_ops lib)
unfolding App5.run_impl App5.consume_event
app5_commutes lib draw e m = ground arith

pub app6_commutes : Commutes App6.manager_ops
unfolding App6.run_impl App6.consume_event
app6_commutes draws e m = elim (Option-cases (emplace_back 0 (event_a draws.1) m.tx_queue)) [
  | inl f ↦ rw f
  | inr (q, f) ↦ rw f
]

pub app7_commutes : Commutes App7.manager_ops
unfolding App7.run_impl App7.consume_event
app7_commutes draws e m = ground arith

pub app8_commutes : Commutes Defs.manager_ops
unfolding Defs.run_impl Defs.consume_event
app8_commutes env e m = ground arith

pub app10_commutes : {Q : Type 0} (lib : AtomicQueue Event Q) → Commutes (App10.manager_ops lib)
unfolding App10.run_impl App10.consume_event
app10_commutes lib draw e m = ground arith

pub app11_commutes : {Q : Type 0} (lib : SpscQueue Event Q) → Commutes (App11.manager_ops lib)
unfolding App11.run_impl App11.consume_event
app11_commutes lib draw e m = ground arith
