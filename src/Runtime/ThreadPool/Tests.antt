-- ===== src/Runtime/ThreadPool/Tests.antt =====
-- Tests of the thread pool, and the property at a concrete input.
use rain.Base.{ℕ, ◌≡◌, refl, ◌==◌, Bool, [], ◌∷◌, arith, count, if◌then◌else◌}
use rain.Core.{err}
use rain.Sync.Channel.{make_channel, try_send, recv, try_recv, close, full_error, closed_error}
use rain.Runtime.ThreadPool.{
  idle, exited, busy, Pool, make_pool, pool_spawn, shutdown, worker_take, run_job, spawns, shuts,
  takes, runs, Steps, start, next, default_thread_count,
}
use rain.Runtime.ThreadPool.Jobs.{all_jobs_run}

-- Job 4 throws. One worker, and room for one job: it is sent job 4, takes and runs it while the pool is shut
-- down, and leaves.
abbrev throwing : ℕ → Bool
throwing j = j == 4

abbrev given : Pool
unfolding pool_spawn try_send make_pool make_channel
given = (pool_spawn 4 (make_pool 1 1)).1

abbrev working : Pool
unfolding given
working = record given { tasks = record (given.tasks) { queue = [] }; workers = busy 4 ∷ [] }

abbrev closing : Pool
unfolding shutdown close working
closing = shutdown working

abbrev ended : Pool
unfolding run_job closing
ended = record (run_job throwing 4 closing) { workers = idle ∷ [] }

abbrev left_pool : Pool
unfolding ended
left_pool = record ended { workers = exited ∷ [] }

all-Steps : Steps throwing (make_pool 1 1) left_pool
unfolding worker_take recv try_recv given working closing ended left_pool make_pool make_channel
    pool_spawn try_send shutdown close run_job
all-Steps =
    next
      (next (next (next (next start (spawns 4)) (takes [] [] (busy 4) refl refl)) shuts)
        (runs [] [] 4 refl))
      (takes [] [] exited refl refl)

all_jobs_run_example :
    (count 4 left_pool.finished ≡ count 4 left_pool.accepted)
    × (count 4 left_pool.caught ≡ (if throwing 4 then count 4 left_pool.accepted else 0))
unfolding left_pool
all_jobs_run_example = all_jobs_run throwing 1 1 all-Steps (omega arith) refl 4

-- `spawn` answers an error when the queue is full, and when the pool was shut down.
queue_full : (pool_spawn 5 given).0 ≡ err full_error
unfolding pool_spawn try_send given
queue_full = refl

after_shutdown : (pool_spawn 5 closing).0 ≡ err closed_error
unfolding pool_spawn try_send closing
after_shutdown = refl

-- A machine that does not know its number of threads has one worker.
one_at_least : default_thread_count 0 ≡ 1
unfolding default_thread_count
one_at_least = refl
