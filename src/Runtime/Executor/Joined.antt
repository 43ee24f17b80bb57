-- ===== src/Runtime/Executor/Joined.antt =====
-- What `run` and `join` of src/runtime/executor.hpp answer.
use rain.Base.{ℕ, suc, ◌<◌, ◌≡◌, refl, ◌∙◌, ◌⊎◌, inl, inr, true, some, length, count}
use rain.Core.{SystemError, Syscall, Result, ok, err}
use rain.Core.Diagnostics.{Sinks}
use rain.Async.Loop.{LoopSystem, Loop}
use rain.Async.Loop.Run.{run}
use rain.Runtime.Executor.{fail_fast, exited, Executor, loop_at, join, is_exited, run_executor}
use rain.Runtime.Executor.Steps.{Steps}
use rain.Runtime.Executor.Kept.{Steps-Inv}
use rain.Runtime.Executor.Ended.{
  all_exited-at, told-failed, total_failed, failed_one, end-present, end-told, join-over, answer,
}
use rain.Runtime.Executor.Launched.{IsFresh, run-Inv}

module _ {K : Type 0} (system : LoopSystem K) (sinks : Sinks K)
    (thread_init teardown : ℕ → K → K) where
  -- From a fresh executor whose `run` succeeded, through whatever the threads do, to a `join` that returns: it
  -- answers `Ok` only if the loop of every core `i` ended well, and else an error that the loop of a core ended
  -- with; as many faults are kept as loops ended with one; core `i` is not registered any more; and its
  -- counter shows whether its loop ended with an error.
  pub join_lem :
      (sigaction : K → Syscall × K) (setup : ℕ → Loop K → Result (Unit {0}) × Loop K)
      (e s f g : Executor K) (r : Result (Unit {0})) (i : ℕ)
      → IsFresh e
      → run_executor system sigaction setup e ≡ some (ok tt, s)
      → Steps system sinks thread_init teardown s f
      → join f ≡ some (r, g)
      → i < e.core_count
      → (((r ≡ ok tt) × (f.threads i ≡ exited (ok tt)))
          ⊎ ((x : SystemError) × (j : ℕ) × (r ≡ err x)
              × (j < e.core_count)
              × (f.threads j ≡ exited (err x))))
        × (length f.faults ≡ total_failed e.core_count f.threads)
        × (count i g.registry ≡ 0)
        × ((f.counters i).loop_run_errors ≡ failed_one (f.threads i))
  join_lem sigaction setup e s f g r i fresh ran steps joined lt =
      let n = e.core_count in
      let v =
        Steps-Inv system sinks thread_init teardown n e.policy steps
          (run-Inv system sigaction setup e s fresh ran) in
      let (all, answers, kept) = join-over f g r joined in
      let over : (i : ℕ) → i < n → is_exited (f.threads i) ≡ true =
        all_exited-at n f.threads (rw v.workers at all) in
      (
        elim (answer n f.threads f.faults over v.sound v.counted) [
          | inl (well, each) ↦ inl (answers ∙ well, each i lt)
          | inr (x, j, fault, lj, at) ↦ inr (x, j, answers ∙ fault, lj, at)
        ],
        v.counted ∙ told-failed n f.threads over,
        rw kept (v.registered i lt ∙ end-present (f.threads i) (over i lt)),
        v.errors i lt ∙ end-told (f.threads i) (over i lt),
      )

  -- Under the policy to fail fast, once a worker has ended after a fault, every loop of the executor has been
  -- asked to stop, and the `run` of a loop that is at its test ends there, well.
  pub fail_fast_lem :
      (sigaction : K → Syscall × K) (setup : ℕ → Loop K → Result (Unit {0}) × Loop K)
      (e s f : Executor K) (i j : ℕ) (x : SystemError)
      → IsFresh e
      → e.policy ≡ fail_fast
      → run_executor system sigaction setup e ≡ some (ok tt, s)
      → Steps system sinks thread_init teardown s f
      → i < e.core_count
      → j < e.core_count
      → f.threads i ≡ exited (err x)
      → (resume : ℕ → Loop K → Loop K) (others : Loop K → Loop K) (fuel : ℕ)
      → ((f.loops j).stop_requested ≡ true)
        × (run system resume others (suc fuel) (loop_at j f) ≡ (some (ok tt), loop_at j f))
  unfolding run
  fail_fast_lem sigaction setup e s f i j x fresh policy ran steps li lj failed resume others fuel =
      let v =
        Steps-Inv system sinks thread_init teardown e.core_count e.policy steps
          (run-Inv system sigaction setup e s fresh ran) in
      let stopped : (f.loops j).stop_requested ≡ true =
        v.stopped policy i j li lj (rw failed refl) in
      (stopped, rw stopped refl)
