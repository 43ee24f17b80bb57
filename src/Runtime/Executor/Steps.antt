-- ===== src/Runtime/Executor/Steps.antt =====
-- The threads of src/runtime/executor.hpp as steps, of which one is taken at a time.
use rain.Base.{ℕ, ◌≤◌, ◌<◌, ◌≡◌, refl, inl, inr, true, Bool-cases, is_negative}
use rain.Core.{SystemError, Result}
use rain.Core.Diagnostics.{Sinks, registry_add, registry_remove}
use rain.Async.Loop.{LoopSystem, Loop, spawn, spawn_service, enqueue, notify, submit, request_stop}
use rain.Async.Loop.Acts.{
  Act, Acts, nothing, and_act, spawns, serves, submits, notifies, ends, stops, graces, waits,
}
use rain.Runtime.Executor.{
  starting, running, failing, stopping, leaving, Executor, loop_at, put_loop, begin_worker, end_run,
  report_fault, stop_next, leave_worker,
}

abbrev pub IsStopped : {K : Type 0} → Loop K → Type 0
IsStopped l = l.stop_requested ≡ true

module _ {K : Type 0} (system : LoopSystem K) where
  pub request_stop-IsStopped : (l : Loop K) → IsStopped (request_stop system l)
  unfolding request_stop
  request_stop-IsStopped l = elim (Bool-cases (is_negative l.cross_core_fd)) [
    | inl e ↦ rw e refl
    | inr e ↦ rw e refl
  ]

  -- Nothing takes a request to stop back.
  Act-IsStopped : {l m : Loop K} → Act system l m → IsStopped l → IsStopped m
  unfolding spawn spawn_service enqueue notify submit
  Act-IsStopped (spawns h) s = s
  Act-IsStopped (serves h) s = s
  Act-IsStopped (submits h) s = s
  Act-IsStopped (notifies h) s = s
  Act-IsStopped (ends h) s = s
  Act-IsStopped {l} stops s = request_stop-IsStopped l
  Act-IsStopped graces s = s
  Act-IsStopped (waits core) s = s

  pub Acts-IsStopped : {l m : Loop K} → Acts system l m → IsStopped l → IsStopped m
  Acts-IsStopped nothing s = s
  Acts-IsStopped (and_act before a) s = Act-IsStopped a (Acts-IsStopped before s)

module _ {K : Type 0} (system : LoopSystem K) (sinks : Sinks K)
    (thread_init teardown : ℕ → K → K) where
  -- The stages of the workers; what any thread may do to a loop, `stop` and `request_graceful_stop` among it;
  -- and other executors at the registry. The `run` of a loop may end in any way that keeps a request to
  -- stop.
  pub data Step (e : Executor K) : Executor K → Type 0 where
    begins :
        (i : ℕ)
        → i < e.thread_count
        → e.threads i ≡ starting
        → Step e (begin_worker system sinks thread_init teardown i e)
    returns :
        (i : ℕ) (r : Result (Unit {0})) (l : Loop K)
        → i < e.thread_count
        → e.threads i ≡ running
        → (IsStopped (e.loops i) → IsStopped l)
        → Step e (end_run system sinks thread_init teardown i r l e)
    reports :
        (i : ℕ) (x : SystemError)
        → i < e.thread_count
        → e.threads i ≡ failing x
        → Step e (report_fault system sinks thread_init teardown i x e)
    asks :
        (i : ℕ) (x : SystemError) (j : ℕ)
        → i < e.thread_count
        → e.threads i ≡ stopping x j
        → Step e (stop_next system sinks thread_init teardown i x j e)
    leaves :
        (i : ℕ) (r : Result (Unit {0}))
        → i < e.thread_count
        → e.threads i ≡ leaving r
        → Step e (leave_worker system sinks thread_init teardown i r e)
    acts : (j : ℕ) {m : Loop K} → Acts system (loop_at j e) m → Step e (put_loop j m e)
    adds : (c : ℕ) → e.thread_count ≤ c → Step e (record e { registry = registry_add c e.registry })
    removes :
        (c : ℕ) → e.thread_count ≤ c → Step e (record e { registry = registry_remove c e.registry })

  pub data Steps (e : Executor K) : Executor K → Type 0 where
    start : Steps e e
    next : {f g : Executor K} → Steps e f → Step f g → Steps e g
