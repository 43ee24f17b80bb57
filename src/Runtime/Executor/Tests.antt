-- ===== src/Runtime/Executor/Tests.antt =====
-- Tests of the executor, and the properties at concrete inputs.
use rain.Base.{
  ℕ, zero, suc, ◌+◌, ◌<◌, ◌≡◌, refl, ◌⊎◌, Bool, true, false, [], ◌∷◌, Option, none, some, arith,
  count, length,
}
use rain.Core.{Errno, Errc, SystemError, made, Syscall, returned, failed, Result, ok, err}
use rain.Core.Diagnostics.{Sinks, fresh_metrics}
use rain.Async.Concepts.{WaitState}
use rain.Async.Loop.{Loop, request_stop}
use rain.Async.Loop.Run.{run}
use rain.Async.Loop.Samples.{counting, counting-Counts, empty_loop}
use rain.Runtime.Executor.{
  fail_fast, starting, exited, Executor, loop_at, join, run_executor, create_executor, destroy_from,
  set_up, stop, stop_from, begin_worker, end_run, report_fault, stop_next, leave_worker, watchdog,
}
use rain.Runtime.Executor.Made.{span, create_executor-balanced}
use rain.Runtime.Executor.Steps.{
  IsStopped, begins, returns, reports, asks, leaves, Steps, start, next,
}
use rain.Runtime.Executor.Ended.{failed_one, total_failed}
use rain.Runtime.Executor.Launched.{IsFresh}
use rain.Runtime.Executor.Joined.{join_lem, fail_fast_lem}
use rain.Runtime.Executor.Refused.{run_executor_lem}

create_executor-balanced_example :
    let (r, k') =
      create_executor counting (λ a. WaitState.pending) (λ a. ok 0) (λ i. empty_loop) [] 1 0 in
    ((x : SystemError) × (r ≡ err x) × (k' ≡ 0))
    ⊎ ((e : Executor ℕ) × (r ≡ ok e)
        × (e.core_count ≡ 1)
        × (e.kernel ≡ k')
        × (k' ≡ 0 + span 4 1 0 e.loops)
        × (destroy_from counting e.core_count 0 e.loops k' ≡ 0))
create_executor-balanced_example =
    create_executor-balanced counting 4 (λ k. k) counting-Counts (λ a. WaitState.pending)
      (λ a. ok 0) (λ i. empty_loop) [] 1 0

-- An executor of two cores.
abbrev two_cores : Executor ℕ
two_cores = record {
  kernel = 5;
  loops = λ i. empty_loop;
  core_count = 2;
  threads = λ i. starting;
  thread_count = 0;
  policy = fail_fast;
  faults = [];
  metrics_size = 0;
  counters = λ i. fresh_metrics;
  registry = 9 ∷ [];
}

not_registered_here : (i : ℕ) → i < 2 → count i (9 ∷ []) ≡ 0
not_registered_here i lt = ground (arith, lt)

two_cores-IsFresh : IsFresh two_cores
two_cores-IsFresh = record {
  no_threads = refl;
  no_faults = refl;
  no_metrics = refl;
  not_registered = not_registered_here;
}

abbrev ignored : ℕ → Syscall × ℕ
ignored k = (returned 0, k)

abbrev all_well : ℕ → Loop ℕ → Result (Unit {0}) × Loop ℕ
all_well i l = (ok tt, l)

abbrev quiet : Sinks ℕ
quiet = record { g_sink = none; sink_of = λ s e k. k }

abbrev no_memory : SystemError
no_memory = made Errc.io_error "epoll_wait failed"

abbrev faulty : Result (Unit {0})
faulty = err no_memory

abbrev launched : Executor ℕ
unfolding run_executor set_up
launched = elim (run_executor counting ignored all_well two_cores) [
  | none ↦ two_cores
  | some (r, s) ↦ s
]

abbrev idle_init : ℕ → ℕ → ℕ
idle_init i k = k

-- The worker of core 0 begins, its loop fails, it tells this, asks both loops to stop and ends; then that of
-- core 1 begins, and its loop ends well.
abbrev worker_fails : Executor ℕ → Executor ℕ
worker_fails e =
    let e1 = begin_worker counting quiet idle_init idle_init 0 e in
    let e2 = end_run counting quiet idle_init idle_init 0 (err no_memory) empty_loop e1 in
    report_fault counting quiet idle_init idle_init 0 no_memory e2

abbrev worker_asks : Executor ℕ → Executor ℕ
worker_asks e =
    let e1 = stop_next counting quiet idle_init idle_init 0 no_memory 0 e in
    let e2 = stop_next counting quiet idle_init idle_init 0 no_memory 1 e1 in
    let e3 = stop_next counting quiet idle_init idle_init 0 no_memory 2 e2 in
    leave_worker counting quiet idle_init idle_init 0 (err no_memory) e3

abbrev other_ends : Executor ℕ → Executor ℕ
other_ends e =
    let e1 = begin_worker counting quiet idle_init idle_init 1 e in
    let e2 = end_run counting quiet idle_init idle_init 1 (ok tt) (loop_at 1 e1) e1 in
    leave_worker counting quiet idle_init idle_init 1 (ok tt) e2

abbrev ended : Executor ℕ
ended = other_ends (worker_asks (worker_fails launched))

ended-Steps : Steps counting quiet idle_init idle_init launched ended
unfolding run_executor set_up begin_worker end_run report_fault stop_next leave_worker
ended-Steps =
    next
      (next
        (next
          (next
            (next
              (next
                (next
                  (next
                    (next (next start (begins 0 (omega arith) refl))
                      (returns 0 (err no_memory) empty_loop (omega arith) refl (λ s. s)))
                    (reports 0 no_memory (omega arith) refl))
                  (asks 0 no_memory 0 (omega arith) refl))
                (asks 0 no_memory 1 (omega arith) refl))
              (asks 0 no_memory 2 (omega arith) refl))
            (leaves 0 (err no_memory) (omega arith) refl))
          (begins 1 (omega arith) refl))
        (returns 1 (ok tt) _ (omega arith) refl (λ s. s)))
      (leaves 1 (ok tt) (omega arith) refl)

abbrev after_join : Executor ℕ
after_join = record ended { thread_count = 0 }

join_lem_example :
    (((faulty ≡ ok tt) × (ended.threads 1 ≡ exited (ok tt)))
      ⊎ ((x : SystemError) × (j : ℕ) × (faulty ≡ err x)
          × (j < 2)
          × (ended.threads j ≡ exited (err x))))
    × (length ended.faults ≡ total_failed 2 ended.threads)
    × (count 1 after_join.registry ≡ 0)
    × ((ended.counters 1).loop_run_errors ≡ failed_one (ended.threads 1))
unfolding run_executor set_up begin_worker end_run report_fault stop_next leave_worker join
join_lem_example =
    join_lem counting quiet idle_init idle_init ignored all_well two_cores launched ended after_join
      (err no_memory) 1 two_cores-IsFresh refl ended-Steps refl (omega arith)

fail_fast_lem_example :
    ((ended.loops 1).stop_requested ≡ true)
    × (run counting (λ h l. l) (λ l. l) 8 (loop_at 1 ended) ≡ (some (ok tt), loop_at 1 ended))
unfolding run_executor set_up begin_worker end_run report_fault stop_next leave_worker
fail_fast_lem_example =
    fail_fast_lem counting quiet idle_init idle_init ignored all_well two_cores launched ended 0 1
      no_memory two_cores-IsFresh refl refl ended-Steps (omega arith) (omega arith) refl (λ h l. l)
      (λ l. l) 7

-- The setup of core 1 fails.
abbrev second_fails : ℕ → Loop ℕ → Result (Unit {0}) × Loop ℕ
second_fails zero l = (ok tt, l)
second_fails (suc i) l = (err no_memory, l)

run_executor_lem_example :
    (s : Executor ℕ) × (((run_executor counting ignored second_fails two_cores ≡ some (ok tt, s))
        × (s.thread_count ≡ 2)
        × (s.threads 0 ≡ starting))
      ⊎ ((x : SystemError) × (run_executor counting ignored second_fails two_cores
            ≡ some (err x, s))
          × (s.thread_count ≡ 0)
          × (IsStopped (s.loops 0) ⊎ ((y : Errno) × ((ignored 5).0 ≡ failed y)))))
run_executor_lem_example =
    run_executor_lem counting ignored second_fails two_cores 0 refl (omega arith)

-- A watchdog that sees the deadline pass stops both loops; one that sees the workers drained does nothing.
abbrev seen : Option (Executor ℕ) → Bool
seen none = false
seen (some e) = (e.loops 1).stop_requested

hard_stop : seen (watchdog counting ((false, false) ∷ (true, false) ∷ []) two_cores) ≡ true
unfolding watchdog stop stop_from request_stop
hard_stop = refl

drained_in_time : seen (watchdog counting ((false, false) ∷ (false, true) ∷ []) two_cores) ≡ false
unfolding watchdog stop stop_from request_stop
drained_in_time = refl
