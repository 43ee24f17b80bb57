-- ===== src/Lib.antt =====
-- Rain: a C++ library of coroutines on per-core event loops, with timers, an epoll reactor, file and
-- network I/O, and synchronization. The development models the parts below; times are nanoseconds
-- and machine integers are natural numbers, with their wrap-around written out where it can occur.
--
-- src/core/result.hpp: Core (SystemError, Result). src/core/diagnostics.hpp: Core/Diagnostics, the installed sink
-- and the counters of the cores, which are known by their addresses.
-- src/sync/channel.hpp: Sync/Channel. Each member function of Channel is a function on the record of its
-- fields; a call from the lock to the unlock is one step, and a wait whose predicate is false is `none`.
-- `run` takes the calls of all threads in the order in which they hold the mutex. Waiters adds the
-- sleeping and notified threads of both condition variables.
-- src/sync/spinlock.hpp: Sync/SpinLock, as a relation between the flag with the threads' places.
-- src/async/concepts.hpp: Async/Concepts (WaitState, shared with the awaiters by address).
-- src/async/timer.hpp: Async/Timer. Slotmap is the table of entries (slotmap_, free_indices_,
-- active_count_) and the ids; Wheel has the levels, schedule_at, cancel, tick, cascade and place;
-- Queries has advance_to, next_deadline, the ready list and SleepAwaiter.
-- src/async/task.hpp: Async/Task. Task and JoinHandle are addresses into a heap of frames, of which the promise
-- counts; Chains has the hand-over between coroutines that await one another.
-- src/async/io_reactor.hpp: Async/Reactor. Slots has the waiting entries and the table of descriptors,
-- Poll has fire, rearm_or_erase and poll, Register the registrations and the life of the reactor,
-- Awaiters has ReadAwaiter and WriteAwaiter, with their system call and message as arguments. The
-- kernel's epoll is a parameter, a state with the calls on it. Async/Race puts the reactor, the
-- timers and the stop callback of SleepAwaiter on the cells that they share, and Net/Awaiters/Race the
-- stop callbacks of the awaiters of sockets besides.
-- src/async/combinators.hpp: Async/Combinators. A task that runs to its end is a function on a world, with
-- its result; Pipes has the pipe operators and Retry the loop of `retry`. WhenAll, WhenAny and Timeout have
-- the shared states, with the racers as steps in the order in which they end, and the awaiter's
-- `await_suspend` anywhere between them. `when_any` and `timeout` take what a move of the result leaves
-- behind as a parameter.
-- src/async/event_loop.hpp: Async/Loop. Its state has the core of Async/Race, the tasks, the ready queue and
-- the inbox of other threads; Run has `run`, with an iteration as `run_round`, on fuel. Resuming a coroutine
-- and what other threads do before the owner locks the inbox are parameters; Acts says by the steps of
-- `Act` what these may do, and Tasks what becomes of the tasks. Descriptors is about `create` and the destructor,
-- Moves about its moves and those of the reactor.
-- src/async/signal.hpp: Async/Signal, over an interface of system calls, with the part of the event loop that
-- keeps a SignalSet; Restored is about the mask of the thread.
-- src/net/io_awaiters.hpp, src/net/accept_awaiter.hpp: Net/Awaiters, with the stop callbacks, which are told
-- whether their thread has an event loop; Timed has TimedReadyAwaiter. The calls on sockets are arguments.
-- src/net/socket_fd_ops.hpp, src/net/listener_socket_ops.hpp, src/net/listen_options.hpp: Net/Sockets, over an
-- interface of system calls. src/net/address.hpp: Net/Address, an address by its bytes; the system's reading and
-- printing of texts is an interface.
-- src/net/tcp_stream.hpp, src/net/tcp_listener.hpp: Net/Tcp, the objects that own the descriptor of a socket.
-- Awaited has what their waits do to the table of open descriptors, and Balanced who closes what.
-- src/runtime/thread_pool.hpp: Runtime/ThreadPool, over Sync/Channel, with callers and workers as steps.
-- src/runtime/bridge.hpp: Runtime/Bridge, the notifier and BlockingAwaiter over the reactor and the pool; Whole has
-- `spawn_blocking` as one coroutine; while it waits, the worker's steps and whatever else happens come in the
-- order of a schedule, which is a parameter.
-- src/runtime/executor.hpp: Runtime/Executor, the event loops with their worker threads. A worker goes through
-- stages, and Steps has what any thread may do next; Told and Kept have the invariant of these steps, Launched
-- its beginning after `run` and Ended its end, Joined and Refused what `join` and `run` answer, and Made the
-- descriptors of `create`.
-- src/runtime/runtime.hpp: Runtime/Facade, with the locals that `block_on` sets on the caller's thread. What the
-- variable that `capture_into` writes holds is a parameter.
-- src/fs: Fs. System is an interface to the system calls, functions on a world, with records of what
-- POSIX documents of them; Detail has the blocking operations, File the options and the shared cell
-- of a descriptor, Metadata the conversion of a `struct stat`, and Ops what hands an operation to the blocking
-- pool.
-- src/net/stream_io_ops.hpp: Net/StreamIo, over an interface to the system calls, the waits for readiness
-- and the clock; Sending has the files and the loops with a timeout.
--
-- Bounds. `cascade` recurses on the number of levels above it, at most 3; `advance_to` has one unit of
-- fuel for each millisecond begun up to its target, which its theorem shows to be enough. Ids have
-- 24 bits of index and 40 of generation, and the theorems on ids assume that neither is exhausted
-- (HasRoom). A loop around a system call has fuel for each byte and each signal that interrupts it.
--
-- `run` of the event loop may run for ever, and its theorems hold for every fuel; the fuel of `retry` is the
-- number of its attempts.
--
-- Not modelled: the bodies of coroutines other than those named above, which are parameters; the text that a
-- sink prints; the move constructors of Executor and Runtime, and the members that only pass a call on. The
-- memory orders of atomics are taken as sequentially consistent.
pub mod Base
pub mod Core
pub mod Sync
pub mod Async
pub mod Fs
pub mod Net
pub mod Runtime
