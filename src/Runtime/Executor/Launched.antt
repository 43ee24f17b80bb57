-- ===== src/Runtime/Executor/Launched.antt =====
-- A fresh executor of src/runtime/executor.hpp and what its `run` launches.
use rain.Base.{
  ℕ, zero, suc, ◌<◌, ◌≡◌, refl, ◌∙◌, sym, inl, inr, [], some, arith, count, Option-cases, subst,
}
use rain.Core.{Syscall, Syscall-outcome, Result, ok, Result-cases}
use rain.Async.Loop.{LoopSystem, Loop}
use rain.Runtime.Executor.{
  starting, Executor, loop_at, put_loop, stop_and_join, set_up, launch, run_executor,
}
use rain.Runtime.Executor.Told.{Inv}
use rain.Runtime.Executor.Ended.{told_count-starting}

-- An executor as `create` makes it, whose cores are not in the registry.
pub record IsFresh {K : Type 0} (e : Executor K) : Type 0 where
  pub no_threads : e.thread_count ≡ 0
  pub no_faults : e.faults ≡ []
  pub no_metrics : e.metrics_size ≡ 0
  pub not_registered : (i : ℕ) → i < e.core_count → count i e.registry ≡ 0

module _ {K : Type 0} (system : LoopSystem K) where
  -- What the loops over the cores leave as it was.
  pub record Alike (e f : Executor K) : Type 0 where
    pub cores : f.core_count ≡ e.core_count
    pub threads : f.thread_count ≡ e.thread_count
    pub stages : f.threads ≡ e.threads
    pub policy : f.policy ≡ e.policy
    pub faults : f.faults ≡ e.faults
    pub metrics : f.metrics_size ≡ e.metrics_size
    pub registry : f.registry ≡ e.registry

  pub set_up-Alike :
      (setup : ℕ → Loop K → Result (Unit {0}) × Loop K) (n i : ℕ) (e : Executor K)
      → Alike e (set_up system setup n i e).1
  unfolding set_up
  set_up-Alike setup zero i e = record {
    cores = refl;
    threads = refl;
    stages = refl;
    policy = refl;
    faults = refl;
    metrics = refl;
    registry = refl;
  }
  set_up-Alike setup (suc n) i e =
      let l = (setup i (loop_at i e)).1 in
      let rest = set_up-Alike setup n (suc i) (put_loop i l e) in
      elim (Result-cases (setup i (loop_at i e)).0) [
        | inl (u, h) ↦
            rw (set_up, h)
              (record {
                cores = rest.cores;
                threads = rest.threads;
                stages = rest.stages;
                policy = rest.policy;
                faults = rest.faults;
                metrics = rest.metrics;
                registry = rest.registry;
              })
        | inr (x, h) ↦
            rw (set_up, h)
              (record {
                cores = refl;
                threads = refl;
                stages = refl;
                policy = refl;
                faults = refl;
                metrics = refl;
                registry = refl;
              })
      ]

  launch-Inv : (e : Executor K) → IsFresh e → Inv e.core_count e.policy (launch system e)
  launch-Inv e fresh =
      let begun : (i : ℕ) → i < e.core_count → (launch system e).threads i ≡ starting =
        λ i lt. ground (arith, lt) in
      record {
        cores = refl;
        workers = refl;
        same_policy = refl;
        sound = rw fresh.no_faults tt;
        counted =
            rw fresh.no_faults
              (sym (told_count-starting e.core_count (launch system e).threads begun));
        registered = λ i lt. rw (begun i lt) (fresh.not_registered i lt);
        errors = λ i lt. rw (begun i lt) (ground (arith, fresh.no_metrics, lt));
        stopped = λ q i j li lj s. absurd (ground (arith, li, s));
      }

  set_up-IsFresh :
      (setup : ℕ → Loop K → Result (Unit {0}) × Loop K) (e : Executor K)
      → IsFresh e
      → IsFresh (set_up system setup e.core_count 0 e).1
  set_up-IsFresh setup e fresh =
      let a = set_up-Alike setup e.core_count 0 e in
      record {
        no_threads = a.threads ∙ fresh.no_threads;
        no_faults = a.faults ∙ fresh.no_faults;
        no_metrics = a.metrics ∙ fresh.no_metrics;
        not_registered =
            λ i lt. rw a.registry (fresh.not_registered i (omega (arith, lt, a.cores)));
      }

  -- `run` that succeeds has launched the executor that the setups left.
  run-launched :
      (sigaction : K → Syscall × K) (setup : ℕ → Loop K → Result (Unit {0}) × Loop K)
      (e s : Executor K)
      → run_executor system sigaction setup e ≡ some (ok tt, s)
      → let e1 = record e { kernel = (sigaction e.kernel).1 } in
        s ≡ launch system (set_up system setup e.core_count 0 e1).1
  unfolding run_executor
  run-launched sigaction setup e s h =
      let e1 = record e { kernel = (sigaction e.kernel).1 } in
      let e2 = (set_up system setup e.core_count 0 e1).1 in
      elim (Syscall-outcome (sigaction e.kernel).0) [
        | inr (x, f) ↦ let c = rw (run_executor, f) at h in absurd (ground (arith, c))
        | inl (n, f) ↦ elim (Result-cases (set_up system setup e.core_count 0 e1).0) [
          | inl (u, g) ↦ let c = rw (run_executor, f, g) at h in ground (arith, c)
          | inr (x, g) ↦ elim (Option-cases (stop_and_join system e2)) [
            | inl w ↦ let c = rw (run_executor, f, g, w) at h in absurd (ground (arith, c))
            | inr (e3, w) ↦ let c = rw (run_executor, f, g, w) at h in absurd (ground (arith, c))
          ]
        ]
      ]

  pub run-Inv :
      (sigaction : K → Syscall × K) (setup : ℕ → Loop K → Result (Unit {0}) × Loop K)
      (e s : Executor K)
      → IsFresh e
      → run_executor system sigaction setup e ≡ some (ok tt, s)
      → Inv e.core_count e.policy s
  run-Inv sigaction setup e s fresh h =
      let e1 : Executor K = record e { kernel = (sigaction e.kernel).1 } in
      let a = set_up-Alike setup e1.core_count 0 e1 in
      let fresh1 : IsFresh e1 = record {
        no_threads = fresh.no_threads;
        no_faults = fresh.no_faults;
        no_metrics = fresh.no_metrics;
        not_registered = fresh.not_registered;
      } in
      let e2 = (set_up system setup e1.core_count 0 e1).1 in
      let v = launch-Inv e2 (set_up-IsFresh setup e1 fresh1) in
      rw (run-launched sigaction setup e s h) (
        subst (λ n. Inv n e.policy (launch system e2)) a.cores
          (subst (λ p. Inv e2.core_count p (launch system e2)) a.policy v))
