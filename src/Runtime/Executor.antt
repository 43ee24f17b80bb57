-- ===== src/Runtime/Executor.antt =====
-- src/runtime/executor.hpp: the event loops of all cores and the threads that run them. The loops share one
-- kernel, which each has while it is at work. The cell of counters of a core has the core's number.
pub mod Made
pub mod Told
pub mod Steps
pub mod Kept
pub mod Ended
pub mod Launched
pub mod Joined
pub mod Refused
mod Tests
use rain.Base.{
  ℕ, zero, suc, ◌+◌, Bool, true, false, ◌&&◌, List, [], ◌∷◌, ◌++◌, Option, none, some, ltb, leb,
  if◌then◌else◌, update,
}
use rain.Core.{Syscall, returned, failed, SystemError, from_errno, Result, ok, err}
use rain.Core.Diagnostics.{
  Severity, Event, Sinks, emit, Metrics, fresh_metrics, count_metric, run_errors, registry_add,
  registry_remove,
}
use rain.Async.Concepts.{States}
use rain.Async.Loop.{
  LoopSystem, Loop, kernel_of, with_kernel, create, destroy, request_stop, request_graceful_stop,
}
use rain.Async.Loop.Moves.{move_loop}

pub data FaultPolicy : Type 0 where
  fail_fast log_only : FaultPolicy

abbrev pub is_fail_fast : FaultPolicy → Bool
is_fail_fast fail_fast = true
is_fail_fast log_only = false

-- Where a worker thread is: not begun, in the `run` of its loop, with an error that it has not told yet,
-- asking all loops to stop (the next of them is kept), about to tear down, or at its end.
pub data Stage : Type 0 where
  starting running : Stage
  failing : SystemError → Stage
  stopping : SystemError → ℕ → Stage
  leaving exited : Result (Unit {0}) → Stage

-- Executor, with the registry of counters and the cells of counters. `loops` has `core_count` elements and
-- `threads` has `thread_count`.
pub record Executor (K : Type 0) : Type 0 where
  pub kernel : K
  pub loops : ℕ → Loop K
  pub core_count : ℕ
  pub threads : ℕ → Stage
  pub thread_count : ℕ
  pub policy : FaultPolicy
  pub faults : List SystemError
  pub metrics_size : ℕ
  pub counters : Metrics
  pub registry : List ℕ

abbrev pub fallback_core_count : ℕ
fallback_core_count = 1

unfoldable pub default_core_count : ℕ → ℕ
default_core_count hardware = if ltb 0 hardware then hardware else fallback_core_count

abbrev pub fault_policy : {K : Type 0} → FaultPolicy → Executor K → Executor K
fault_policy p e = record e { policy = p }

-- The loop of a core at work, and what is kept of it.
abbrev pub loop_at : {K : Type 0} → ℕ → Executor K → Loop K
loop_at i e = with_kernel (e.loops i) e.kernel

abbrev pub put_loop : {K : Type 0} → ℕ → Loop K → Executor K → Executor K
put_loop i l e = record e { kernel = kernel_of l; loops = update e.loops i l }

abbrev pub put_thread : {K : Type 0} → ℕ → Stage → Executor K → Executor K
put_thread i t e = record e { threads = update e.threads i t }

abbrev pub is_exited : Stage → Bool
is_exited (exited r) = true
is_exited t = false

abbrev pub all_exited : ℕ → (ℕ → Stage) → Bool
all_exited zero threads = true
all_exited (suc n) threads = is_exited (threads n) && all_exited n threads

-- The first fault, if there is one.
abbrev pub first_fault : List SystemError → Result (Unit {0})
first_fault [] = ok tt
first_fault (x ∷ xs) = err x

-- `join`, which waits (`none`) until every thread is at its end.
unfoldable pub join : {K : Type 0} → Executor K → Option (Result (Unit {0}) × Executor K)
join e =
    if all_exited e.thread_count e.threads
    then some (first_fault e.faults, record e { thread_count = 0 })
    else none

module _ {K : Type 0} (system : LoopSystem K) where
  -- The destructors of the `n` loops from `i` on, in order.
  unfoldable pub destroy_from : ℕ → ℕ → (ℕ → Loop K) → K → K
  destroy_from zero i loops k = k
  destroy_from (suc n) i loops k =
      destroy_from n (suc i) loops (destroy system (with_kernel (loops i) k))

  -- The loop of `create`: `n` more event loops after the first `i`, each moved into the vector. Where one cannot
  -- be made, the vector is destroyed.
  unfoldable pub create_loops :
      States → (ℕ → Result ℕ) → ℕ → ℕ → (ℕ → Loop K) → K → Result (ℕ → Loop K) × K
  create_loops states results zero i loops k = (ok loops, k)
  create_loops states results (suc n) i loops k =
      let (r, k1) = create system states results k in
      elim r [
        | err e ↦ (err e, destroy_from i 0 loops k1)
        | ok l ↦
            let (taken, left) = move_loop l in
            create_loops states results n (suc i) (update loops i taken)
              (destroy system (with_kernel left k1))
      ]

  -- `stop`, from loop `i` on.
  unfoldable pub stop_from : ℕ → ℕ → Executor K → Executor K
  stop_from zero i e = e
  stop_from (suc n) i e = stop_from n (suc i) (put_loop i (request_stop system (loop_at i e)) e)

  unfoldable pub stop : Executor K → Executor K
  stop e = stop_from e.core_count 0 e

  -- `request_graceful_stop`; `callbacks` runs those that are registered with the token of a loop.
  unfoldable pub graceful_from : (Loop K → Loop K) → ℕ → ℕ → Executor K → Executor K
  graceful_from callbacks zero i e = e
  graceful_from callbacks (suc n) i e =
      graceful_from callbacks n (suc i)
        (put_loop i (request_graceful_stop system callbacks (loop_at i e)) e)

  unfoldable pub stop_gracefully : (Loop K → Loop K) → Executor K → Executor K
  stop_gracefully callbacks e = graceful_from callbacks e.core_count 0 e

  -- The watchdog of `graceful_stop`, on what it sees each time: whether the deadline has passed, and whether
  -- the workers are drained. `none` when it still watches.
  unfoldable pub watchdog : List (Bool × Bool) → Executor K → Option (Executor K)
  watchdog [] e = none
  watchdog ((passed, drained) ∷ more) e =
      let rest = watchdog more e in
      if passed then some (stop e) else if drained then some e else rest

  unfoldable pub stop_and_join : Executor K → Option (Executor K)
  stop_and_join e = elim (join (stop e)) [ none ↦ none | some (r, e') ↦ some e' ]

  -- The setups in the order of the cores; after one that fails, nothing more is set up.
  unfoldable pub set_up :
      (ℕ → Loop K → Result (Unit {0}) × Loop K)
      → ℕ
      → ℕ
      → Executor K
      → Result (Unit {0}) × Executor K
  set_up setup zero i e = (ok tt, e)
  set_up setup (suc n) i e =
      let (r, l) = setup i (loop_at i e) in
      let e1 = put_loop i l e in elim r [ err x ↦ (err x, e1) | ok u ↦ set_up setup n (suc i) e1 ]

  -- The counters of the cores that had none, and the worker threads; `run` is for an executor whose
  -- `threads_` is empty.
  abbrev pub launch : Executor K → Executor K
  launch e = record e {
    counters =
        λ i. if leb e.metrics_size i && ltb i e.core_count then fresh_metrics else e.counters i;
    metrics_size = e.core_count;
    threads = λ i. if ltb i e.core_count then starting else e.threads i;
    thread_count = e.core_count;
  }

  -- `run`; `sigaction` is the call of `ignore_sigpipe`. It waits (`none`) only for threads of its own.
  unfoldable pub run_executor :
      (K → Syscall × K)
      → (ℕ → Loop K → Result (Unit {0}) × Loop K)
      → Executor K
      → Option (Result (Unit {0}) × Executor K)
  run_executor sigaction setup e =
      let (s, k) = sigaction e.kernel in
      let e1 = record e { kernel = k } in
      let (r, e2) = set_up setup e1.core_count 0 e1 in
      elim s [
        | failed x ↦ some (err (from_errno x), e1)
        | returned n ↦ elim r [
          | err x ↦ elim (stop_and_join e2) [ none ↦ none | some e3 ↦ some (err x, e3) ]
          | ok u ↦ some (ok tt, launch e2)
        ]
      ]

-- `create`, with the policy of a new executor. `unused` stands past the end of the vector.
module _ {K : Type 0} (system : LoopSystem K) where
  unfoldable pub create_executor :
      States → (ℕ → Result ℕ) → (ℕ → Loop K) → List ℕ → ℕ → K → Result (Executor K) × K
  create_executor states results unused registry num_cores k =
      let (r, k') = create_loops system states results num_cores 0 unused k in
      elim r [
        | err e ↦ (err e, k')
        | ok loops ↦ (
          ok (record {
            kernel = k';
            loops = loops;
            core_count = num_cores;
            threads = λ i. starting;
            thread_count = 0;
            policy = fail_fast;
            faults = [];
            metrics_size = 0;
            counters = λ i. fresh_metrics;
            registry = registry;
          }),
          k',
        )
      ]

-- The body of a worker thread, stage by stage.
module _ {K : Type 0} (system : LoopSystem K) (sinks : Sinks K)
    (thread_init teardown : ℕ → K → K) where
  unfoldable pub begin_worker : ℕ → Executor K → Executor K
  begin_worker i e =
      put_thread i running
        (record e { registry = registry_add i e.registry; kernel = thread_init i e.kernel })

  -- What `run_result` leads to.
  abbrev pub after_run : Result (Unit {0}) → Stage
  after_run (ok u) = leaving (ok tt)
  after_run (err x) = failing x

  -- `loops_[i].run()` has answered `r` and left the loop as `l`.
  unfoldable pub end_run : ℕ → Result (Unit {0}) → Loop K → Executor K → Executor K
  end_run i r l e = put_thread i (after_run r) (put_loop i l e)

  abbrev pub run_failed : SystemError → Event
  run_failed x = record {
    event_code = "loop.run_failed";
    severity = Severity.error;
    error = some x;
    fields = [];
  }

  unfoldable pub report_fault : ℕ → SystemError → Executor K → Executor K
  report_fault i x e =
      put_thread i (if is_fail_fast e.policy then stopping x 0 else leaving (err x)) (record e {
        counters = count_metric (some i) run_errors 1 e.counters;
        kernel = emit sinks (run_failed x) e.kernel;
        faults = e.faults ++ (x ∷ []);
      })

  -- A turn of the loop over all event loops.
  unfoldable pub stop_next : ℕ → SystemError → ℕ → Executor K → Executor K
  stop_next i x j e =
      let asked = put_loop j (request_stop system (loop_at j e)) e in
      if ltb j e.core_count
      then put_thread i (stopping x (suc j)) asked
      else put_thread i (leaving (err x)) e

  unfoldable pub leave_worker : ℕ → Result (Unit {0}) → Executor K → Executor K
  leave_worker i r e =
      put_thread i (exited r)
        (record e { kernel = teardown i e.kernel; registry = registry_remove i e.registry })
