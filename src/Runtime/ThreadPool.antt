-- ===== src/Runtime/ThreadPool.antt =====
-- src/runtime/thread_pool.hpp. Jobs are numbers; a worker thread is idle, runs a job, or has left its loop.
pub mod Counting
pub mod Answers
pub mod Jobs
mod Tests
use rain.Base.{
  ℕ, zero, suc, ◌+◌, ltb, Bool, true, false, List, [], ◌∷◌, ◌++◌, Option, none, some, ◌≡◌,
  if◌then◌else◌, length,
}
use rain.Core.{Result, ok, err}
use rain.Sync.Channel.{Channel, make_channel, send, try_send, recv, close, size}

pub data Worker : Type 0 where
  idle exited : Worker
  busy : ℕ → Worker

-- ThreadPool, with the jobs that it accepted, those that have run, and those whose exception the handler
-- got.
pub record Pool : Type 0 where
  pub tasks : Channel ℕ
  pub workers : List Worker
  pub shutting_down : Bool
  pub accepted : List ℕ
  pub finished : List ℕ
  pub caught : List ℕ

abbrev pub fallback_thread_count : ℕ
fallback_thread_count = 1

unfoldable pub default_thread_count : ℕ → ℕ
default_thread_count hardware = if ltb 0 hardware then hardware else fallback_thread_count

abbrev pub idle_workers : ℕ → List Worker
idle_workers zero = []
idle_workers (suc n) = idle ∷ idle_workers n

unfoldable pub make_pool : ℕ → ℕ → Pool
unfolding make_channel
make_pool num_threads queue_capacity = record {
  tasks = make_channel queue_capacity;
  workers = idle_workers num_threads;
  shutting_down = false;
  accepted = [];
  finished = [];
  caught = [];
}

-- The pool after its channel answered a job.
abbrev pub answered : ℕ → Pool → Result (Unit {0}) → Channel ℕ → Pool
answered job p (ok u) tasks = record p { tasks = tasks; accepted = p.accepted ++ (job ∷ []) }
answered job p (err e) tasks = record p { tasks = tasks }

-- `spawn` never waits; `submit` does while the queue is full (`none`).
unfoldable pub pool_spawn : ℕ → Pool → Result (Unit {0}) × Pool
unfolding try_send
pool_spawn job p = let (r, tasks) = try_send job p.tasks in (r, answered job p r tasks)

unfoldable pub pool_submit : ℕ → Pool → Option (Result (Unit {0}) × Pool)
unfolding send
pool_submit job p = elim (send job p.tasks) [
  | none ↦ none
  | some (r, tasks) ↦ some (r, answered job p r tasks)
]

-- `shutdown` up to the joins; they return when all workers have left their loops.
unfoldable pub shutdown : Pool → Pool
unfolding close
shutdown p = if p.shutting_down then p else record p { shutting_down = true; tasks = close p.tasks }

abbrev pub joined : List Worker → Bool
joined [] = true
joined (exited ∷ ws) = joined ws
joined (idle ∷ ws) = false
joined (busy j ∷ ws) = false

unfoldable pub pool_size : Pool → ℕ
pool_size p = length p.workers

unfoldable pub pending : Pool → ℕ
unfolding size
pending p = size p.tasks

unfoldable pub is_shutdown : Pool → Bool
is_shutdown p = p.shutting_down

-- `worker_loop`: the test of `while`, which receives a job or ends the loop, and sleeps (`none`) while
-- there is neither a job nor a close.
unfoldable pub worker_take : Pool → Option (Worker × Pool)
unfolding recv
worker_take p = elim (recv p.tasks) [
  | none ↦ none
  | some (none, tasks) ↦ some (exited, record p { tasks = tasks })
  | some (some job, tasks) ↦ some (busy job, record p { tasks = tasks })
]

-- Its body: the job runs, and its exception, if any, goes to the handler.
unfoldable pub run_job : (ℕ → Bool) → ℕ → Pool → Pool
run_job throws job p = record p {
  finished = p.finished ++ (job ∷ []);
  caught = if throws job then p.caught ++ (job ∷ []) else p.caught;
}

-- The steps of the threads: callers, and workers, of which one goes on at a time. The job that `submit`
-- makes is a packaged task, which keeps its exception for the future and does not throw.
pub data Step (throws : ℕ → Bool) (p : Pool) : Pool → Type 0 where
  spawns : (job : ℕ) → Step throws p (pool_spawn job p).1
  submits :
      {q : Pool} (job : ℕ) (r : Result (Unit {0}))
      → throws job ≡ false
      → pool_submit job p ≡ some (r, q)
      → Step throws p q
  shuts : Step throws p (shutdown p)
  takes :
      {q : Pool} (before after : List Worker) (w : Worker)
      → p.workers ≡ before ++ (idle ∷ after)
      → worker_take p ≡ some (w, q)
      → Step throws p (record q { workers = before ++ (w ∷ after) })
  runs :
      (before after : List Worker) (job : ℕ)
      → p.workers ≡ before ++ (busy job ∷ after)
      → Step throws p (record (run_job throws job p) { workers = before ++ (idle ∷ after) })

pub data Steps (throws : ℕ → Bool) (p : Pool) : Pool → Type 0 where
  start : Steps throws p p
  next : {q r : Pool} → Steps throws p q → Step throws q r → Steps throws p r
