-- ===== src/Fs/Ops/Handed.antt =====
-- What the operations of src/fs/ops.hpp answer through the blocking pool.
use rain.Base.{
  ◌+◌, List, ℕ, ◌≡◌, ◌⊎◌, inl, inr, true, [], ◌∷◌, ◌++◌, pos, Option, some, arith, Bool-cases,
  Option-cases,
}
use rain.Core.{SystemError, Result, ok, err}
use rain.Async.Reactor.Slots.{Epoll, World}
use rain.Runtime.ThreadPool.{Pool}
use rain.Runtime.Bridge.{EventfdSystem, notify_fd, acknowledge}
use rain.Runtime.Bridge.Whole.{Happening, works, play, spawn_blocking}
use rain.Runtime.Bridge.Whole.Answered.{CountsRuns, KeepsRuns, at_wait, whole_lem}
use rain.Fs.Ops.{Caller, spawn_blocking_result, no_throw, no_loop, no_pool}

no_throw-ends :
    {K A : Type 0} (f : K → Option (Result A × K)) (u k : K) (outcome : Option (Result A))
    → no_throw f u ≡ some (outcome, k)
    → (r : Result A) × (outcome ≡ some r) × (f u ≡ some (r, k))
no_throw-ends f u k outcome h = elim (Option-cases (f u)) [
  | inl running ↦ let c = rw (no_throw, running) at h in absurd (ground (arith, c))
  | inr ((r, k'), done) ↦
      let c = rw (no_throw, done) at h in (r, ground (arith, c), ground (arith, c, done))
]

module _ {K A : Type 0} (epoll : Epoll K) (efd : EventfdSystem K) (schedule : List (Happening K))
    (c : Caller) (f : K → Option (Result A × K)) (runs : K → ℕ) where
  -- An operation of files through the pool that ends, where writing to and reading from eventfds succeed, under any
  -- schedule of the worker's steps and of anything else that does not run the operation. Either it answers an error
  -- and the pool has not accepted its job. Or the calling thread has a reactor and a pool and the coroutine waited,
  -- its job accepted; the operation has run, at a moment of the schedule, and once in all of it; and the answer
  -- is what it answered then.
  pub handed_lem :
      (p p' : Pool) (w w' : World K) (r : Result A)
      → CountsRuns efd (no_throw f) runs
      → KeepsRuns runs schedule
      → ((fd : ℕ) (k : K) → (notify_fd efd (pos fd) k).0 ≡ ok tt)
      → ((fd : ℕ) (k : K) → (n : ℕ) × ((acknowledge efd (pos fd) k).0 ≡ ok n))
      → spawn_blocking_result epoll efd schedule c f p w ≡ some (r, p', w')
      → ((e : SystemError) × (r ≡ err e) × (p'.accepted ≡ p.accepted))
        ⊎ ((c.has_reactor ≡ true)
            × (c.has_pool ≡ true)
            × ((fd : ℕ) × (before : List (Happening K)) × (later : List (Happening K)) × (k : K)
                × (let m = at_wait epoll efd (no_throw f) schedule runs fd c.frame c.awaiter p w in
                    (m.pool.accepted ≡ p.accepted ++ (c.awaiter.work ∷ []))
                    × (schedule ≡ before ++ (works ∷ later))
                    × (f (play efd (no_throw f) before m).world.kernel ≡ some (r, k))
                    × (runs (play efd (no_throw f) schedule m).world.kernel
                        ≡ runs m.world.kernel + 1))))
  unfolding spawn_blocking_result
  handed_lem p p' w w' r counts keeps writes reads ended =
      let nested = spawn_blocking epoll efd (no_throw f) schedule c.frame c.awaiter p w in
      elim (Bool-cases c.has_reactor) [
        | inr off ↦
            let g = rw (spawn_blocking_result, off) at ended in
            inl (no_loop, ground (arith, g), ground (arith, g))
        | inl on ↦ elim (Bool-cases c.has_pool) [
          | inr off ↦
              let g = rw (spawn_blocking_result, on, off) at ended in
              inl (no_pool, ground (arith, g), ground (arith, g))
          | inl has ↦ elim (Option-cases nested) [
            | inl waits ↦
                let g = rw (spawn_blocking_result, on, has, waits) at ended in
                absurd (ground (arith, g))
            | inr ((r0, p0, w0), e) ↦
                let g = rw (spawn_blocking_result, on, has, e) at ended in
                elim (whole_lem epoll efd (no_throw f) schedule runs c.frame c.awaiter p p0 w w0 r0
                  counts keeps writes reads e) [
                    | inl (x, bad, kept) ↦ inl (x, ground (arith, g, bad), ground (arith, g, kept))
                    | inr
                          (
                            fd,
                            outcome,
                            made,
                            (accepted, entry, (before, later, k, split, ran), once, gives),
                          ) ↦
                        let (r1, o, d) = no_throw-ends f _ k outcome ran in
                        let same : r ≡ r1 = ground (arith, g, gives, o) in
                        inr (on, has, (fd, before, later, k, (accepted, split, rw same d, once)))
                  ]
          ]
        ]
      ]
