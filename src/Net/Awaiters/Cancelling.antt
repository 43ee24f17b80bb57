-- ===== src/Net/Awaiters/Cancelling.antt =====
-- Stop callbacks of the awaiters of src/net/accept_awaiter.hpp and src/net/io_awaiters.hpp, on the thread of
-- the event loop and on any other.
use rain.Base.{
  ℕ, ◌<◌, ◌≡◌, refl, ◌∙◌, ap, pos, Bool, true, false, [], ◌∷◌, ◌++◌, none, some, arith,
  if◌then◌else◌, update_self, Bool-cases, inl, inr,
}
use rain.Core.{err}
use rain.Async.Concepts.{WaitState, is_pending}
use rain.Async.Timer.Slotmap.{lookup}
use rain.Async.Timer.Slotmap.Lookup.{lookup-release}
use rain.Async.Timer.Wheel.History.{entries-cancel_timer}
use rain.Async.Reactor.Slots.{Epoll}
use rain.Async.Loop.{Loop, notify}
use rain.Net.Awaiters.{world_of, set_state, io_cancelled_error}
use rain.Net.Awaiters.Timed.{
  TimedAwaiter, event_of, timed_cancel, timed_resume, cancel_its_timer, deregister_its,
}
use rain.Net.Awaiters.Freed.{freed, deregister_dir-freed}

module _ {K : Type 0} (epoll : Epoll K) where
  -- The state that the stop callback of a wait with a timeout leaves.
  timed_cancel-state :
      (on_loop : Bool) (a : TimedAwaiter) (l : Loop K) (i h : ℕ)
      → a.wait.fd ≡ pos i
      → i < (world_of l).reactor.slots_size
      → a.wait.handle ≡ some h
      → is_pending ((world_of l).states a.wait.state) ≡ true
      → let m = timed_cancel epoll on_loop a l in
        ((world_of m).states a.wait.state ≡ WaitState.cancelled)
        × ((world_of m).reactor.slots i
            ≡ freed (event_of a.direction) ((world_of l).reactor.slots i))
        × (m.ready_queue ≡ (if on_loop then l.ready_queue ++ (h ∷ []) else l.ready_queue))
  unfolding timed_cancel notify deregister_its
  timed_cancel-state on_loop a l i h fd within handle pending =
      let w = world_of (set_state a.wait.state WaitState.cancelled l) in
      let (table, ready, states, results) =
        deregister_dir-freed epoll i (event_of a.direction) w within in
      let state =
        ap (λ f. f a.wait.state) states
        ∙ update_self (world_of l).states a.wait.state WaitState.cancelled in
      elim (Bool-cases on_loop) [
        | inl e ↦ simp (fd, handle, pending, e) (state, table, refl)
        | inr e ↦ simp (fd, handle, pending, e) (state, table, refl)
      ]

  -- A cancelled wait that goes on.
  timed_resume-cancelled :
      (a : TimedAwaiter) (m : Loop K)
      → (world_of m).states a.wait.state ≡ WaitState.cancelled
      → timed_resume epoll a m ≡ (
        err io_cancelled_error,
        record a { wait = record (a.wait) { armed = false } },
        cancel_its_timer a m,
      )
  unfolding timed_resume
  timed_resume-cancelled a m e = rw (timed_resume, e) refl

  cancelled-gone :
      (a : TimedAwaiter) (m : Loop K)
      → lookup (cancel_its_timer a m).core.wheel.entries a.timer_id ≡ none
  cancelled-gone a m =
      let gone = lookup-release m.core.wheel.entries a.timer_id a.timer_id in
      rw (entries-cancel_timer a.timer_id m.core.wheel) (ground (arith, gone))

  -- A stop callback on a pending wait with a timeout: when the coroutine then goes on, it has the
  -- cancellation's error, its timer is gone, and its direction of the descriptor is free.
  pub timed_cancel_lem :
      (on_loop : Bool) (a : TimedAwaiter) (l : Loop K) (i h : ℕ)
      → a.wait.fd ≡ pos i
      → i < (world_of l).reactor.slots_size
      → a.wait.handle ≡ some h
      → is_pending ((world_of l).states a.wait.state) ≡ true
      → let m = timed_cancel epoll on_loop a l in
        let (r, b, n) = timed_resume epoll a m in
        (r ≡ err io_cancelled_error)
        × (lookup n.core.wheel.entries a.timer_id ≡ none)
        × ((world_of n).reactor.slots i
            ≡ freed (event_of a.direction) ((world_of l).reactor.slots i))
        × (n.ready_queue ≡ (if on_loop then l.ready_queue ++ (h ∷ []) else l.ready_queue))
        × (b.wait.armed ≡ false)
  timed_cancel_lem on_loop a l i h fd within handle pending =
      let m = timed_cancel epoll on_loop a l in
      let (state, table, ready) = timed_cancel-state on_loop a l i h fd within handle pending in
      rw (timed_resume-cancelled a m state) (refl, cancelled-gone a m, table, ready, refl)
