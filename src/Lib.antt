-- ===== src/Lib.antt =====
-- A model of the event managers in this repository and theorems about it.
--
-- The program is a family of experiments on one design. A manager owns a thread that makes events
-- and puts them into a queue; a pipe (inc/PipedEvent.h) tells the main thread that something is
-- queued. The main thread waits in epoll_wait, calls the manager's Produce to take the queued
-- events, and hands each to a consumer's Consume. The experiments differ in the queue: a list under
-- a mutex (app1.cpp, app3.cpp), none (app4.cpp), lock-free queues of other projects (app5.cpp,
-- app10.cpp, app11.cpp), a lock-free queue of its own (app6.cpp), a list in a locking wrapper
-- (app7.cpp), and two lists whose mutexes are tried (app8.cpp). app12.cpp has three managers and a
-- router that sends each event to the consumers that asked for its type. In app2.cpp two managers
-- consume from each other, and in main.cpp three form a round trip.
--
-- The parts, and where they are modelled:
--   Prelude       names of the library, integers, lists and association lists over the native numbers
--   AutoId        inc/AutoId.h: `construct` is the initialiser of `id`, with the counter modulo 2^32
--   PipedEvent    inc/PipedEvent.h, one call at a time: `construct`, `fire`, `consume`, `close_source`,
--                 `close_sink`, `destroy`; `log` is what was asked of the system, newest first
--   Handoff       Fire and Produce as two threads that interleave at every load, store and system call
--   Counters      the counts of a manager, as the models of the managers keep them
--   Prometheus    inc/IPrometheus.h (Interface), inc/promethues-simple-server.h and its test program
--                 integration/test_promethues-simple-server.cpp (Server), and the counters that Run
--                 of inc/IManager.h registers (Metrics, Metering), over the life of a manager (Lifetime)
--   EventPoller   inc/EventPoller.h: `add`, `execute`, `remove`; the map is an association list. In
--                 Calls `take_events` is Execute up to its first call of Consume
--   Manager       inc/IManager.h and inc/IConsumer.h: the virtual functions (Interface), and Run, Stop
--                 and the thread (Lifecycle)
--   Delivery      what a queue between a thread and a consumer promises, with the three counters
--   SelfLoop      the `main` of app1.cpp and its likes, over any manager. In Interleaved the manager's
--                 thread and signals come between any two calls of the loop; `called` is what its
--                 calls of _runImpl took from outside, `waiting` is what Produce returned and
--                 Execute has still to hand over. In Defs a round of the loop is one step
--   CallByCall    the programs with one manager, over SelfLoop/Interleaved
--   Queues        what is asked of the queue classes of other projects
--   Wrapper       inc/List.h: `arrow` is operator->, `call` a method call through it, `append_one` and
--                 `append_all` are Append; Exclusion has any number of threads
--   LockeFreeQueue    inc/LockeFreeQueue.h: emplace_back and swap interleaved at each access to memory
--                 (Defs), as whole calls (Calls), and the destructor (Destroying)
--   App1/Interleaving    _runImpl and Produce of app1.cpp as two threads, statement by statement;
--                 `settled` (App1/Steps) is the manager once the calls inside have returned
--   App8/Interleaving    the same for app8.cpp, where the state says which mutex is locked; a
--                 `try_lock` fails only where it is
--   Event, App1, App3, App4, App5, App6, App7, App8, App10, App11    the files of these names
--   App12         app12.cpp: Events, Router, Managers, Main and Calls, and the proofs about them. In
--                 Offers `take_fd` is what WaitAndRoute does with a report up to its innermost loops,
--                 and a round of those is one call of `make_offer`
--   Loop          a main loop with any number of threads (app2.cpp, app12.cpp, main.cpp): threads and
--                 signals come between any two calls that it makes, as in SelfLoop/Interleaved (Calls);
--                 Keeping has invariants of such runs
--   ListManager   the managers of app2.cpp and main.cpp
--   App2          app2.cpp: two managers, each the consumer of the other
--   Main          main.cpp: two managers that send to a third, whose events `main` gives back by type
--   Tests         runs on concrete inputs
--
-- How the state corresponds to the code. The members of an object are the fields of a record, less
-- those that no method reads (lastEventTime, a manager's own poller and its array). A mutex that is
-- held through a whole method makes that method one step of the schedule. What a system call
-- returns, a random number, or whether another thread holds a mutex is an argument. `none` is an
-- exception, a fault, or a call that blocks for good. A schedule (a list of `Move`, or of `Turn`
-- where a round of the loop is one step) says when each thread runs, what epoll_wait reports and
-- when a signal comes; every theorem about a `main` is about all schedules. Where no mutex makes a
-- call one step (app4.cpp to app6.cpp, app10.cpp to app12.cpp), it still is one in these schedules;
-- what happens when such calls overlap is the subject of Handoff and of LockeFreeQueue.
-- App1/Interleaving and App8/Interleaving have calls that do hold a mutex.
--
-- Fuel: only the loops that empty a queue, and that of ~LockeFreeQueue, take fuel. `produce` gives
-- one more than the queue holds: each round takes one event, and the last one finds the queue
-- empty. `swap` and `destroy` of LockeFreeQueue go by the number of events ever appended, which
-- bounds the nodes that are left.
--
-- Assumed: the records in Queues state what those libraries document of a queue with one producer
-- and one consumer, whose operations are atomic: what is pushed goes to the back, or is refused and
-- leaves the queue as it was; what is popped is the front; a fresh queue is empty.
-- Prometheus.Library states what prometheus-cpp documents of counters without labels: a family and
-- its counter are found by name or made with the value 0, and Increment adds one to its counter
-- alone.
--
-- Not modelled: app9.cpp (which does not compile), what the HTTP server of prometheus-cpp sends,
-- and the copies of other projects (SPSCQueue, atomic_queue, concurrentqueue, readerwriterqueue).
-- Exceptions of PrometheusSimpleServer's constructor, of AddCounter in Run and of the poller that
-- each manager has for itself, which end a program before its loop, are assumed not to happen.
-- Memory order is sequential consistency. Printing and sleeping are left out. The C++ type system
-- is trusted for ownership: an event is moved, never copied but by Clone.

pub mod Prelude
pub mod AutoId
pub mod PipedEvent
pub mod Prometheus
pub mod Handoff
pub mod Event
pub mod CallByCall
pub mod Counters
pub mod EventPoller
pub mod Manager
pub mod SelfLoop
pub mod App1
pub mod Queues
pub mod App5
pub mod App10
pub mod App11
pub mod App3
pub mod App4
pub mod Wrapper
pub mod App7
pub mod App8
pub mod App12
pub mod ListManager
pub mod App2
pub mod Loop
pub mod Main
pub mod LockeFreeQueue
pub mod App6
pub mod Delivery
pub mod Tests
