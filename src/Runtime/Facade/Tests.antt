-- ===== src/Runtime/Facade/Tests.antt =====
-- Tests of the runtime's entry points, and the property at a concrete input.
use rain.Base.{ℕ, ◌≡◌, refl, Bool, false, [], ◌∷◌, Option, none, some, if◌then◌else◌}
use rain.Core.{Result, ok, err, one_at}
use rain.Core.Diagnostics.{Sinks, fresh_metrics, registry_add, registry_remove}
use rain.Async.Concepts.{WaitState}
use rain.Async.Reactor.Register.{create_reactor, add, close_reactor}
use rain.Async.Loop.{
  Loop, create, destroy, enqueue, spawn, spawn_with_handle, drain_cross_core, cleanup_completed,
}
use rain.Async.Loop.Run.{run, run_round, resume_all, resume_ready, look_again}
use rain.Async.Loop.Samples.{counting, end_it, empty_loop}
use rain.Runtime.Executor.{create_executor, create_loops}
use rain.Runtime.Facade.{
  Locals, Runtime, install_locals, uninstall_locals, block_on, block_on_value, builder,
  worker_threads, enable_blocking, build, has_thread_pool,
}

abbrev quiet : Sinks ℕ
quiet = record { g_sink = none; sink_of = λ s e k. k }

abbrev stored : Result ℕ
stored = ok 7

-- The variable of the caller: written once frame 2, that of `capture_into`, has ended.
abbrev slot_of : Loop ℕ → Option (Result (Result ℕ))
slot_of l = if l.done 2 then some (ok stored) else none

abbrev here : Locals
here = record {
  g_metrics = none;
  g_thread_pool = none;
  counters = λ i. fresh_metrics;
  registry = 9 ∷ [];
}

abbrev there : Locals
unfolding install_locals uninstall_locals registry_add registry_remove
there = uninstall_locals 8 (ok tt) (install_locals 8 (some 1) here)

abbrev never_stored : Loop ℕ → Option (Result ℕ)
never_stored l = none

-- A task of numbers that was never finished aborts the process.
aborts :
    block_on_value counting quiet end_it
      (λ l. l)
      3
      (λ a. WaitState.pending)
      (λ a. ok 0)
      8
      (some 1)
      1
      2
      here
      5
      never_stored
    ≡ some none
unfolding block_on_value block_on run run_round resume_all resume_ready look_again drain_cross_core
    cleanup_completed spawn spawn_with_handle enqueue create create_reactor add destroy
    close_reactor one_at
aborts = refl

-- A builder that disables blocking builds a runtime without a pool.
abbrev built_pool : Result (Runtime ℕ) × ℕ → Bool
unfolding has_thread_pool
built_pool (ok rt, k) = has_thread_pool rt
built_pool (err e, k) = false

no_pool :
    built_pool (
      build counting
        (λ a. WaitState.pending)
        (λ a. ok 0)
        (λ i. empty_loop)
        []
        (enable_blocking false (worker_threads 1 (builder 4)))
        5)
    ≡ false
unfolding build builder has_thread_pool create_executor create_loops create create_reactor add
    destroy close_reactor
no_pool = refl
