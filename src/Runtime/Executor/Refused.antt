-- ===== src/Runtime/Executor/Refused.antt =====
-- What `run` of src/runtime/executor.hpp leaves when it is refused, and when it is not.
use rain.Base.{
  ℕ, zero, suc, ◌+◌, ◌≤◌, ◌<◌, ◌≡◌, refl, ◌∙◌, ◌⊎◌, inl, inr, some, arith, ◌==◌, Bool-cases,
}
use rain.Core.{Errno, SystemError, Syscall, failed, Syscall-outcome, Result, ok, err, Result-cases}
use rain.Async.Loop.{LoopSystem, Loop, request_stop}
use rain.Runtime.Executor.{
  starting, Executor, loop_at, put_loop, join, stop_from, stop, stop_and_join, set_up, launch,
  run_executor,
}
use rain.Runtime.Executor.Steps.{IsStopped, request_stop-IsStopped}
use rain.Runtime.Executor.Launched.{set_up-Alike}

module _ {K : Type 0} (system : LoopSystem K) where
  put-IsStopped :
      (i j : ℕ) (e : Executor K)
      → (i ≡ j) ⊎ IsStopped (e.loops j)
      → IsStopped ((put_loop i (request_stop system (loop_at i e)) e).loops j)
  put-IsStopped i j e h =
      let asked = request_stop-IsStopped system (loop_at i e) in
      elim (Bool-cases (i == j)) [
        | inl here ↦ rw here asked
        | inr there ↦ rw there (elim h [ inl eq ↦ absurd (ground (arith, eq, there)) | inr s ↦ s ])
      ]

  stop_from-IsStopped :
      (n i j : ℕ) (e : Executor K)
      → ((i ≤ j) × (j < i + n)) ⊎ IsStopped (e.loops j)
      → IsStopped ((stop_from system n i e).loops j)
  unfolding stop_from
  stop_from-IsStopped zero i j e (inl (a, b)) = absurd (omega (arith, a, b))
  stop_from-IsStopped zero i j e (inr s) = s
  stop_from-IsStopped (suc n) i j e h =
      let e1 = put_loop i (request_stop system (loop_at i e)) e in
      stop_from-IsStopped n (suc i) j e1 (elim h [
        | inr s ↦ inr (put-IsStopped i j e (inr s))
        | inl (a, b) ↦ elim (Bool-cases (i == j)) [
          | inl here ↦ inr (put-IsStopped i j e (inl (ground (arith, here))))
          | inr there ↦ inl (ground (arith, a, there), omega (arith, b))
        ]
      ])

  stop_from-threads :
      (n i : ℕ) (e : Executor K) → (stop_from system n i e).thread_count ≡ e.thread_count
  unfolding stop_from
  stop_from-threads zero i e = refl
  stop_from-threads (suc n) i e =
      stop_from-threads n (suc i) (put_loop i (request_stop system (loop_at i e)) e)

  -- Without threads, `stop_and_join` does not wait.
  refused-IsStopped :
      (e : Executor K) (j : ℕ)
      → e.thread_count ≡ 0
      → j < e.core_count
      → (s : Executor K) × (stop_and_join system e ≡ some s)
        × (s.thread_count ≡ 0)
        × IsStopped (s.loops j)
  unfolding stop_and_join join stop
  refused-IsStopped e j none_runs lt =
      let idle = stop_from-threads e.core_count 0 e ∙ none_runs in
      rw (stop_and_join, join, stop, idle)
        (
          _,
          refl,
          refl,
          stop_from-IsStopped e.core_count 0 j e (inl (omega arith, omega (arith, lt))),
        )

  -- `run` of an executor without threads does not wait. Either it answers `Ok`, and each core `j` has a worker
  -- that is about to start; or it answers an error and there is no worker, and every loop has been asked to
  -- stop, unless it was SIGPIPE that could not be ignored.
  pub run_executor_lem :
      (sigaction : K → Syscall × K) (setup : ℕ → Loop K → Result (Unit {0}) × Loop K)
      (e : Executor K) (j : ℕ)
      → e.thread_count ≡ 0
      → j < e.core_count
      → (s : Executor K) × (((run_executor system sigaction setup e ≡ some (ok tt, s))
            × (s.thread_count ≡ e.core_count)
            × (s.threads j ≡ starting))
          ⊎ ((x : SystemError) × (run_executor system sigaction setup e ≡ some (err x, s))
              × (s.thread_count ≡ 0)
              × (IsStopped (s.loops j) ⊎ ((y : Errno) × ((sigaction e.kernel).0 ≡ failed y)))))
  unfolding run_executor
  run_executor_lem sigaction setup e j idle lt =
      let e1 : Executor K = record e { kernel = (sigaction e.kernel).1 } in
      let e2 = (set_up system setup e.core_count 0 e1).1 in
      let a = set_up-Alike system setup e.core_count 0 e1 in
      elim (Syscall-outcome (sigaction e.kernel).0) [
        | inr (y, f) ↦ rw (run_executor, f) (e1, inr (_, refl, idle, inr (y, refl)))
        | inl (n, f) ↦ elim (Result-cases (set_up system setup e.core_count 0 e1).0) [
          | inl (u, g) ↦
              rw (run_executor, f, g)
                (launch system e2, inl (refl, a.cores, ground (arith, lt, a.cores)))
          | inr (x, g) ↦
              let (s, w, none_runs, stopped) =
                refused-IsStopped e2 j (a.threads ∙ idle) (omega (arith, lt, a.cores)) in
              rw (run_executor, f, g, w) (s, inr (x, refl, none_runs, inl stopped))
        ]
      ]
