-- ===== src/Runtime/Bridge/Blocking.antt =====
-- How `spawn_blocking` of src/runtime/bridge.hpp begins, and what its coroutine finds when it goes on.
use rain.Base.{ℕ, ◌≡◌, refl, ◌⊎◌, inl, inr, pos, true, false, [], ◌∷◌, ◌++◌, some}
use rain.Core.{SystemError, ok, err, Result-cases}
use rain.Async.Reactor.Slots.{Epoll, World}
use rain.Async.Reactor.Register.{register_read}
use rain.Async.Reactor.Registration.{register_read_lem}
use rain.Sync.Channel.{try_send}
use rain.Runtime.ThreadPool.{Pool, pool_spawn}
use rain.Runtime.Bridge.{
  EventfdSystem, BlockingState, BlockingAwaiter, acknowledge, blocking_suspend, blocking_resume,
  blocking_entry,
}

-- How the pool answers.
pool_spawn-accepted :
    (job : ℕ) (p : Pool)
    → let (r, q) = pool_spawn job p in
      ((r ≡ ok tt) × (q.accepted ≡ p.accepted ++ (job ∷ [])))
      ⊎ ((e : SystemError) × (r ≡ err e) × (q.accepted ≡ p.accepted))
unfolding pool_spawn
pool_spawn-accepted job p = elim (Result-cases (try_send job p.tasks).0) [
  | inl (u, e) ↦ inl (e, rw e refl)
  | inr (x, e) ↦ inr (x, e, rw e refl)
]

module _ {K A : Type 0} (epoll : Epoll K) (sys : EventfdSystem K) where
  pub blocking_resume-acknowledged :
      (s : BlockingState A) (w : World K) (n : ℕ)
      → (acknowledge sys s.notifier w.kernel).0 ≡ ok n
      → (blocking_resume epoll sys s w).0 ≡ s.result
  unfolding blocking_resume
  blocking_resume-acknowledged s w n h = rw (blocking_resume, h) refl

  -- Either the coroutine waits: the pool has accepted its job, its entry waits on the eventfd, and the shared state
  -- is as it was; or it goes on at once, the pool has not accepted the job, and the shared state has an error.
  pub blocking_suspend_lem :
      (h i : ℕ) (a : BlockingAwaiter) (s : BlockingState A) (p : Pool) (w : World K)
      → s.notifier ≡ pos i
      → let (stays, s', p', w') = blocking_suspend epoll h a s p w in
        ((stays ≡ true)
          × (s' ≡ s)
          × (p'.accepted ≡ p.accepted ++ (a.work ∷ []))
          × ((w'.reactor.slots i).read ≡ some (blocking_entry h a)))
        ⊎ ((stays ≡ false)
            × (p'.accepted ≡ p.accepted)
            × ((e : SystemError) × (s' ≡ record s { result = err e })))
  unfolding blocking_suspend
  blocking_suspend_lem h i a s p w fd =
      let (registered, _, _) = register_read_lem epoll i (blocking_entry h a) w in
      elim registered [
        | inr (x, bad, _) ↦
            let bad' : (register_read epoll s.notifier (blocking_entry h a) w).0 ≡ err x =
              rw fd bad in
            rw (blocking_suspend, bad') (inr (refl, refl, (x, refl)))
        | inl (good, _, entry) ↦
            let good' : (register_read epoll s.notifier (blocking_entry h a) w).0 ≡ ok tt =
              rw fd good in
            let w1 = (register_read epoll s.notifier (blocking_entry h a) w).1 in
            let waits : (w1.reactor.slots i).read ≡ some (blocking_entry h a) = rw fd entry in
            elim (pool_spawn-accepted a.work p) [
              | inl (sent, accepted) ↦
                  rw (blocking_suspend, good', sent) (inl (refl, refl, accepted, waits))
              | inr (x, refused, accepted) ↦
                  rw (blocking_suspend, good', refused) (inr (refl, accepted, (x, refl)))
            ]
      ]
