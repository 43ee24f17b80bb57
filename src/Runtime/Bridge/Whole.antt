-- ===== src/Runtime/Bridge/Whole.antt =====
-- `spawn_blocking` of src/runtime/bridge.hpp as one coroutine, from the making of its notifier to its end, with the
-- worker's steps and what else happens meanwhile in any order.
pub mod Answered
use rain.Base.{ℕ, ℤ, suc, ◌+◌, ltb, List, [], ◌∷◌, Bool, Option, none, some, if◌then◌else◌}
use rain.Core.{Result, ok, err, has_value}
use rain.Async.Reactor.Slots.{Epoll, World}
use rain.Runtime.ThreadPool.{Pool}
use rain.Runtime.Bridge.{
  EventfdSystem, create_notifier, close_notifier, notify_fd, BlockingState, BlockingAwaiter,
  blocking_state, store_outcome, notify_stored, blocking_suspend, blocking_resume,
}

-- How far the job is: before or in the function, after it, after its outcome is stored, and after the eventfd is
-- written.
pub data Job (A : Type 0) : Type 0 where
  queued : Job A
  ran stored notified : Option A → Job A

-- While the coroutine waits: what awaiter and worker share, the pool and the world, the job, and how often its eventfd
-- was written.
pub record Waiting (K A : Type 0) : Type 0 where
  pub shared : BlockingState A
  pub pool : Pool
  pub world : World K
  pub job : Job A
  pub wakes : ℕ

-- A step of the worker that has the job, or of anything else: other threads, and other coroutines.
pub data Happening (K : Type 0) : Type 0 where
  works : Happening K
  elsewhere : (Pool × World K → Pool × World K) → Happening K

module _ {K A : Type 0} (sys : EventfdSystem K) (work : K → Option (Option A × K)) where
  -- `work` is the function of the job, of which `none` says that it still runs.
  unfoldable pub work_step : Waiting K A → Waiting K A
  work_step m = elim m.job [
    | queued ↦ elim (work m.world.kernel) [
      | none ↦ m
      | some (o, k) ↦ record m { job = ran o; world = record (m.world) { kernel = k } }
    ]
    | ran o ↦ record m { job = stored o; shared = store_outcome o m.shared }
    | stored o ↦
        let (s, k) = notify_stored sys m.shared m.world.kernel in
        let sent = has_value (notify_fd sys m.shared.notifier m.world.kernel).0 in
        record m {
          job = notified o;
          shared = s;
          world = record (m.world) { kernel = k };
          wakes = if sent then suc m.wakes else m.wakes;
        }
    | notified o ↦ m
  ]

  unfoldable pub play_one : Happening K → Waiting K A → Waiting K A
  unfolding work_step
  play_one works m = work_step m
  play_one (elsewhere f) m = let (p, w) = f (m.pool, m.world) in record m { pool = p; world = w }

  unfoldable pub play : List (Happening K) → Waiting K A → Waiting K A
  play [] m = m
  play (e ∷ es) m = play es (play_one e m)

module _ {K A : Type 0} (epoll : Epoll K) (sys : EventfdSystem K) (work : K → Option (Option A × K))
    (schedule : List (Happening K)) where
  abbrev pub begun : Bool × BlockingState A × Pool × World K → Waiting K A
  begun (stays, s, p, w) = record { shared = s; pool = p; world = w; job = queued; wakes = 0 }

  -- The coroutine at its end: the result, and the end of the shared state with its notifier.
  unfoldable pub finish : BlockingState A → Pool → World K → Result A × Pool × World K
  finish s p w =
      let (r, w') = blocking_resume epoll sys s w in
      let (closed, left, k) = close_notifier sys s.notifier w'.kernel in
      (r, p, record w' { kernel = k })

  -- `co_await awaiter`, of the frame `h` with the awaiter `a`, and the end of the coroutine. After the schedule the
  -- coroutine goes on if its eventfd was written; else it waits (`none`).
  unfoldable pub suspended :
      ℕ → BlockingAwaiter → ℤ → Pool → World K → Option (Result A × Pool × World K)
  suspended h a fd p w =
      let (stays, s, p1, w1) = blocking_suspend epoll h a (blocking_state fd) p w in
      let m = play sys work schedule (begun (stays, s, p1, w1)) in
      if stays
      then (if ltb 0 m.wakes then some (finish m.shared m.pool m.world) else none)
      else some (finish s p1 w1)

  -- `spawn_blocking`.
  unfoldable pub spawn_blocking :
      ℕ → BlockingAwaiter → Pool → World K → Option (Result A × Pool × World K)
  spawn_blocking h a p w =
      let (made, k) = create_notifier sys w.kernel in
      let w0 = record w { kernel = k } in
      elim made [ err e ↦ some (err e, p, w0) | ok fd ↦ suspended h a fd p w0 ]
