-- ===== src/Runtime/ThreadPool/Jobs.antt =====
-- Every job that the pool of src/runtime/thread_pool.hpp accepts is run once, even over a shutdown.
use rain.Base.{
  ℕ, ◌+◌, ◌<◌, ◌≡◌, refl, ap, inl, inr, Bool, true, List, [], ◌∷◌, ◌++◌, some, arith, ◌==◌,
  if◌then◌else◌, length, count, count-append, Bool-cases,
}
use rain.Core.{Result}
use rain.Sync.Channel.{Channel, make_channel, try_send, close}
use rain.Runtime.ThreadPool.{
  Worker, idle, exited, busy, Pool, make_pool, answered, pool_spawn, shutdown, joined, worker_take,
  run_job, Step, spawns, submits, shuts, takes, runs, Steps, start, next,
}
use rain.Runtime.ThreadPool.Counting.{
  running, left, running-append, left-append, running-idle_workers, left-idle_workers, joined-lem,
}
use rain.Runtime.ThreadPool.Answers.{Sent, try_send-Sent, submit-Sent, worker_take-lem}

-- Every accepted job has run, is run by one worker, or waits in the queue; a worker leaves only when the
-- channel is closed and empty.
pub record IsFair (throws : ℕ → Bool) (p : Pool) : Type 0 where
  pub balance :
      (j : ℕ)
      → count j p.accepted ≡ count j p.finished + running j p.workers + count j p.tasks.queue
  pub handled : (j : ℕ) → count j p.caught ≡ (if throws j then count j p.finished else 0)
  pub drained : 0 < left p.workers → (p.tasks.closed ≡ true) × (p.tasks.queue ≡ [])

make_pool-IsFair : (throws : ℕ → Bool) (n capacity : ℕ) → IsFair throws (make_pool n capacity)
unfolding make_pool make_channel
make_pool-IsFair throws n capacity = record {
  balance = λ j. omega (arith, running-idle_workers j n);
  handled = λ j. ground arith;
  drained = λ h. absurd (omega (arith, left-idle_workers n, h));
}

answered-IsFair :
    (throws : ℕ → Bool) (job : ℕ) (p : Pool) (r : Result (Unit {0})) (d : Channel ℕ)
    → Sent job p.tasks r d
    → IsFair throws p
    → IsFair throws (answered job p r d)
answered-IsFair throws job p r d (inl (e, closed, pushed)) f =
    rw (e, pushed)
      (record {
        balance = λ j. omega (
          arith,
          f.balance j,
          count-append j p.accepted (job ∷ []),
          count-append j p.tasks.queue (job ∷ []),
        );
        handled = f.handled;
        drained = λ h. absurd (ground (arith, (f.drained h).0, closed));
      })
answered-IsFair throws job p r d (inr (x, e, same)) f =
    rw (e, same) (record { balance = f.balance; handled = f.handled; drained = f.drained })

-- The step of a worker that receives, and of one that has run its job.
take-IsFair :
    (throws : ℕ → Bool) (p q : Pool) (before after : List Worker) (w : Worker)
    → p.workers ≡ before ++ (idle ∷ after)
    → worker_take p ≡ some (w, q)
    → IsFair throws p
    → IsFair throws (record q { workers = before ++ (w ∷ after) })
take-IsFair throws p q before after w at h f =
    let were : (j : ℕ) → running j p.workers ≡ running j before + running j after =
      λ j. rw at (running-append j before (idle ∷ after)) in
    let had : left p.workers ≡ left before + left after =
      rw at (left-append before (idle ∷ after)) in
    elim (worker_take-lem p q w h) [
      | inl (leaves, closed, empty, same) ↦
          rw (leaves, same)
            (record {
              balance =
                  λ j. omega (arith, f.balance j, were j, running-append j before (exited ∷ after));
              handled = f.handled;
              drained = λ _. (closed, empty);
            })
      | inr (job, d, works, front, closed, same) ↦
          rw (works, same)
            (record {
              balance = λ j.
                  let queued : count j p.tasks.queue ≡ count j (job ∷ d.queue) =
                    ap (count j) front in
                  ground (
                    arith,
                    f.balance j,
                    were j,
                    running-append j before (busy job ∷ after),
                    queued,
                  );
              handled = f.handled;
              drained = λ some_left.
                  let one : 0 < left p.workers =
                    omega (arith, some_left, had, left-append before (busy job ∷ after)) in
                  let empty = (f.drained one).1 in absurd (ground (arith, empty, front));
            })
    ]

run-IsFair :
    (throws : ℕ → Bool) (p : Pool) (before after : List Worker) (job : ℕ)
    → p.workers ≡ before ++ (busy job ∷ after)
    → IsFair throws p
    → IsFair throws (record (run_job throws job p) { workers = before ++ (idle ∷ after) })
unfolding run_job
run-IsFair throws p before after job at f =
    let were : (j : ℕ) → running j p.workers ≡ running j before + running j (busy job ∷ after) =
      λ j. rw at (running-append j before (busy job ∷ after)) in
    let had : left p.workers ≡ left before + left after =
      rw at (left-append before (busy job ∷ after)) in
    record {
      balance = λ j. ground (
        arith,
        f.balance j,
        were j,
        running-append j before (idle ∷ after),
        count-append j p.finished (job ∷ []),
      );
      handled = λ j. elim (Bool-cases (job == j)) [
        | inl e ↦
            let same : job ≡ j = ground (arith, e) in
            let t : throws job ≡ throws j = ap throws same in
            ground (
              arith,
              f.handled j,
              t,
              e,
              count-append j p.finished (job ∷ []),
              count-append j p.caught (job ∷ []),
            )
        | inr ne ↦ ground (
          arith,
          f.handled j,
          ne,
          count-append j p.finished (job ∷ []),
          count-append j p.caught (job ∷ []),
        )
      ];
      drained =
          λ some_left. f.drained (omega (arith, some_left, had, left-append before (idle ∷ after)));
    }

Step-IsFair : (throws : ℕ → Bool) {p q : Pool} → Step throws p q → IsFair throws p → IsFair throws q
unfolding pool_spawn shutdown run_job close
Step-IsFair throws {p} (spawns job) f =
    answered-IsFair throws job p (try_send job p.tasks).0 (try_send job p.tasks).1
      (try_send-Sent job p.tasks) f
Step-IsFair throws {p} {q} (submits job r quiet h) f =
    let (d, sent, after) = submit-Sent job p q r h in
    rw after (answered-IsFair throws job p r d sent f)
Step-IsFair throws {p} shuts f = elim (Bool-cases p.shutting_down) [
  | inl e ↦ simp e f
  | inr e ↦
      simp e (record {
        balance = f.balance;
        handled = f.handled;
        drained = λ h. (refl, (f.drained h).1);
      })
]
Step-IsFair throws {p} (takes {q} before after w at h) f =
    take-IsFair throws p q before after w at h f
Step-IsFair throws {p} (runs before after job at) f = run-IsFair throws p before after job at f

Steps-IsFair :
    (throws : ℕ → Bool) {p q : Pool} → Steps throws p q → IsFair throws p → IsFair throws q
Steps-IsFair throws start f = f
Steps-IsFair throws (next before s) f = Step-IsFair throws s (Steps-IsFair throws before f)

-- When the joins of `shutdown` return, the workers having left, each job that a pool of at least one
-- thread accepted has run exactly once, however callers and workers interleave; the handler has had
-- the exception of exactly those that throw.
pub all_jobs_run :
    (throws : ℕ → Bool) (n capacity : ℕ) {p : Pool}
    → Steps throws (make_pool n capacity) p
    → 0 < length p.workers
    → joined p.workers ≡ true
    → (j : ℕ)
    → (count j p.finished ≡ count j p.accepted)
      × (count j p.caught ≡ (if throws j then count j p.accepted else 0))
all_jobs_run throws n capacity {p} steps some_thread over j =
    let f = Steps-IsFair throws steps (make_pool-IsFair throws n capacity) in
    let (none_runs, all_left) = joined-lem j p.workers over in
    let empty : count j p.tasks.queue ≡ 0 =
      ap (count j) (f.drained (omega (arith, some_thread, all_left))).1 in
    let all : count j p.finished ≡ count j p.accepted =
      omega (arith, f.balance j, none_runs, empty) in
    (all, rw⁻¹ all (f.handled j))
