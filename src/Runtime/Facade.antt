-- ===== src/Runtime/Facade.antt =====
-- src/runtime/runtime.hpp: `block_on`, the builder and the members of Runtime, and the functions that read the
-- thread's locals. A pool and a cell of counters are named by numbers in the locals.
pub mod BlockOn
mod Tests
use rain.Base.{ℕ, Bool, true, false, List, [], Option, none, some, if◌then◌else◌, update}
use rain.Core.{Syscall, SystemError, Result, ok, err}
use rain.Core.Diagnostics.{
  Severity, Event, Sinks, emit, Metrics, fresh_metrics, count_metric, run_errors, registry_add,
  registry_remove,
}
use rain.Async.Concepts.{States}
use rain.Async.Combinators.{cancelled_error}
use rain.Async.Loop.{
  LoopSystem, Loop, kernel_of, with_kernel, create, destroy, spawn, spawn_with_handle, submit,
}
use rain.Async.Loop.Run.{run}
use rain.Runtime.ThreadPool.{Pool, make_pool}
use rain.Runtime.Executor.{
  Executor, default_core_count, create_executor, run_executor, join, stop, stop_gracefully,
  stop_and_join,
}

-- The locals of a thread, `g_metrics` and `g_thread_pool`, with the registry and the cells of counters.
pub record Locals : Type 0 where
  pub g_metrics : Option ℕ
  pub g_thread_pool : Option ℕ
  pub counters : Metrics
  pub registry : List ℕ

-- Runtime: an executor and, if blocking is enabled, a pool.
pub record Runtime (K : Type 0) : Type 0 where
  pub executor : Executor K
  pub pool : Option Pool

unfoldable pub has_thread_pool : {K : Type 0} → Runtime K → Bool
has_thread_pool rt = elim rt.pool [ none ↦ false | some p ↦ true ]

-- `*std::move(slot)`, or the error of a cancellation.
abbrev pub value_or_cancelled : {T : Type 0} → Option (Result T) → Result T
value_or_cancelled none = err cancelled_error
value_or_cancelled (some r) = r

-- What `block_on` returns of an outcome: for a task of results, the result; for any other it aborts the process
-- (`none`) where there is none.
abbrev pub of_result : {A : Type 0} → Result (Result A) → Result A
of_result (ok r) = r
of_result (err e) = err e

abbrev pub of_value : {A : Type 0} → Result A → Option A
of_value (ok a) = some a
of_value (err e) = none

abbrev pub block_on_failed : SystemError → Event
block_on_failed x = record {
  event_code = "block_on.run_failed";
  severity = Severity.error;
  error = some x;
  fields = [];
}

-- Before the loop runs, with a cell of counters on the caller's stack.
unfoldable pub install_locals : ℕ → Option ℕ → Locals → Locals
install_locals cell pool t = record {
  g_metrics = some cell;
  g_thread_pool = pool;
  counters = update t.counters cell fresh_metrics;
  registry = registry_add cell t.registry;
}

-- After it.
unfoldable pub uninstall_locals : ℕ → Result (Unit {0}) → Locals → Locals
uninstall_locals cell ran t =
    let counted : Metrics = elim ran [
      | ok u ↦ t.counters
      | err x ↦ count_metric t.g_metrics run_errors 1 t.counters
    ] in
    record {
      g_metrics = none;
      g_thread_pool = none;
      counters = counted;
      registry = registry_remove cell t.registry;
    }

module _ {K T : Type 0} (system : LoopSystem K) (sinks : Sinks K) (resume : ℕ → Loop K → Loop K)
    (others : Loop K → Loop K) (slot : Loop K → Option (Result T)) where
  unfoldable pub tell : Result (Unit {0}) → K → K
  tell (ok u) k = k
  tell (err x) k = emit sinks (block_on_failed x) k

  -- The part that all tasks share. The task's frame is `task`, that of `capture_into` is `capture`, and `slot` reads
  -- the variable on the caller's stack that the latter writes. The answer is the outcome of the task; `none` while
  -- the loop still runs.
  unfoldable pub block_on :
      ℕ
      → States
      → (ℕ → Result ℕ)
      → ℕ
      → Option ℕ
      → ℕ
      → ℕ
      → Locals
      → K
      → Option (Result T × Locals × K)
  unfolding tell
  block_on fuel states results cell pool task capture t k =
      let (made, k1) = create system states results k in
      elim made [
        | err e ↦ some (err e, t, k1)
        | ok l ↦
            let started = spawn capture (spawn_with_handle task l).1 in
            let (ran, m) = run system resume others fuel started in
            elim ran [
              | none ↦ none
              | some r ↦
                  let k2 = destroy system (with_kernel m (tell r (kernel_of m))) in
                  some (
                    value_or_cancelled (slot m),
                    uninstall_locals cell r (install_locals cell pool t),
                    k2,
                  )
            ]
      ]

-- `block_on` of a task of results, and of any other task, where `none` inside says that the process is aborted.
module _ {K A : Type 0} (system : LoopSystem K) (sinks : Sinks K) (resume : ℕ → Loop K → Loop K)
    (others : Loop K → Loop K) (fuel : ℕ) (states : States) (results : ℕ → Result ℕ) (cell : ℕ)
    (pool : Option ℕ) (task capture : ℕ) (t : Locals) (k : K) where
  unfoldable pub block_on_result :
      (Loop K → Option (Result (Result A))) → Option (Result A × Locals × K)
  unfolding block_on
  block_on_result slot =
      elim (block_on system sinks resume others slot fuel states results cell pool task capture t
        k) [ none ↦ none | some (r, t', k') ↦ some (of_result r, t', k') ]

  unfoldable pub block_on_value : (Loop K → Option (Result A)) → Option (Option (A × Locals × K))
  unfolding block_on
  block_on_value slot =
      elim (block_on system sinks resume others slot fuel states results cell pool task capture t
        k) [
          | none ↦ none
          | some (r, t', k') ↦ elim (of_value r) [
            | none ↦ some none
            | some a ↦ some (some (a, t', k'))
          ]
        ]

-- Runtime::Builder, for a machine with `hardware` threads.
pub record Builder : Type 0 where
  pub workers : ℕ
  pub blockers : ℕ
  pub queue_cap : ℕ
  pub blocking_enabled : Bool

abbrev pub default_queue_capacity : ℕ
default_queue_capacity = 1024

unfoldable pub builder : ℕ → Builder
unfolding default_core_count
builder hardware = record {
  workers = default_core_count hardware;
  blockers = default_core_count hardware;
  queue_cap = default_queue_capacity;
  blocking_enabled = true;
}

abbrev pub worker_threads : ℕ → Builder → Builder
worker_threads n b = record b { workers = n }

abbrev pub blocking_threads : ℕ → Builder → Builder
blocking_threads n b = record b { blockers = n }

abbrev pub blocking_queue_capacity : ℕ → Builder → Builder
blocking_queue_capacity n b = record b { queue_cap = n }

abbrev pub enable_blocking : Bool → Builder → Builder
enable_blocking enable b = record b { blocking_enabled = enable }

module _ {K : Type 0} (system : LoopSystem K) where
  unfoldable pub build :
      States → (ℕ → Result ℕ) → (ℕ → Loop K) → List ℕ → Builder → K → Result (Runtime K) × K
  unfolding create_executor make_pool
  build states results unused registry b k =
      let (r, k') = create_executor system states results unused registry b.workers k in
      let pool = if b.blocking_enabled then some (make_pool b.blockers b.queue_cap) else none in
      elim r [ err e ↦ (err e, k') | ok e ↦ (ok (record { executor = e; pool = pool }), k') ]

  -- `run`; the thread initialization that it registers installs the address of the pool in a worker's locals.
  unfoldable pub runtime_run :
      (K → Syscall × K)
      → (ℕ → Loop K → Result (Unit {0}) × Loop K)
      → Runtime K
      → Option (Result (Unit {0}) × Runtime K)
  runtime_run sigaction setup rt = elim (run_executor system sigaction setup rt.executor) [
    | none ↦ none
    | some (r, e) ↦ some (r, record rt { executor = e })
  ]

  abbrev pub install_pool : Option ℕ → Locals → Locals
  install_pool pool t = record t { g_thread_pool = pool }

  unfoldable pub runtime_stop : Runtime K → Runtime K
  runtime_stop rt = record rt { executor = stop system rt.executor }

  unfoldable pub runtime_stop_and_join : Runtime K → Option (Runtime K)
  runtime_stop_and_join rt = elim (stop_and_join system rt.executor) [
    | none ↦ none
    | some e ↦ some (record rt { executor = e })
  ]

  unfoldable pub runtime_stop_gracefully : (Loop K → Loop K) → Runtime K → Runtime K
  runtime_stop_gracefully callbacks rt = record rt {
    executor = stop_gracefully system callbacks rt.executor;
  }

  unfoldable pub runtime_join : Runtime K → Option (Result (Unit {0}) × Runtime K)
  runtime_join rt = elim (join rt.executor) [
    | none ↦ none
    | some (r, e) ↦ some (r, record rt { executor = e })
  ]

  -- `spawn`, which does nothing on a thread without an event loop, and `spawn_on`.
  unfoldable pub spawn_here : ℕ → Option (Loop K) → Option (Loop K)
  spawn_here h none = none
  spawn_here h (some l) = some (spawn h l)

  -- `spawn_with_handle`, which is undefined (`none`) on such a thread.
  unfoldable pub spawn_with_handle_here : ℕ → Option (Loop K) → Option (ℕ × Loop K)
  spawn_with_handle_here h none = none
  spawn_with_handle_here h (some l) = some (spawn_with_handle h l)

  unfoldable pub spawn_on : ℕ → Loop K → Result (Unit {0}) × Loop K
  spawn_on h target = submit system h target
