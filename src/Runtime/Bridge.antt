-- ===== src/Runtime/Bridge.antt =====
-- src/runtime/bridge.hpp: the notifier between threads, and the awaiter of `spawn_blocking`.
pub mod Blocking
pub mod Whole
pub mod Samples
mod Tests
use rain.Base.{
  ℕ, ℤ, pos, minus_one, is_negative, Bool, true, false, not, Option, none, some, ◌==◌,
  if◌then◌else◌, update,
}
use rain.Core.{
  Errno, Syscall, returned, failed, SystemError, made, from_errno, Errc, Result, ok, err, has_value,
}
use rain.Async.Concepts.{WaitState}
use rain.Async.Reactor.Slots.{Epoll, World, PendingEntry}
use rain.Async.Reactor.Poll.{set_reactor}
use rain.Async.Reactor.Register.{register_read, deregister}
use rain.Runtime.ThreadPool.{Pool, pool_spawn}

-- A read of an eventfd: its counter, or how it failed.
pub data Counted : Type 0 where
  counter : ℕ → Counted
  not_read : Errno → Counted

-- The calls on eventfds; `errno` is that of a write that fell short.
pub record EventfdSystem (K : Type 0) : Type 0 where
  pub eventfd : K → Syscall × K
  pub write_one : ℤ → K → Syscall × K
  pub read_counter : ℤ → K → Counted × K
  pub close_fd : ℤ → K → Syscall × K
  pub errno : K → Errno

abbrev pub is_eagain : Errno → Bool
is_eagain Errno.eagain = true
is_eagain e = false

-- A CrossThreadNotifier is its `fd_`.
module _ {K : Type 0} (sys : EventfdSystem K) where
  unfoldable pub create_notifier : K → Result ℤ × K
  create_notifier k =
      let (r, k') = sys.eventfd k in
      elim r [ failed e ↦ (err (from_errno e), k') | returned fd ↦ (ok (pos fd), k') ]

  unfoldable pub notify_fd : ℤ → K → Result (Unit {0}) × K
  notify_fd fd k =
      let (r, k') = sys.write_one fd k in
      elim r [
        | failed e ↦ (err (from_errno e), k')
        | returned n ↦ if n == 8 then (ok tt, k') else (err (from_errno (sys.errno k')), k')
      ]

  unfoldable pub acknowledge : ℤ → K → Result ℕ × K
  acknowledge fd k =
      let (r, k') = sys.read_counter fd k in
      elim r [
        | counter n ↦ (ok n, k')
        | not_read e ↦ if is_eagain e then (ok 0, k') else (err (from_errno e), k')
      ]

  unfoldable pub notifier_valid : ℤ → Bool
  notifier_valid fd = not (is_negative fd)

  -- `close` answers, and leaves `fd_` at -1.
  unfoldable pub close_notifier : ℤ → K → Result (Unit {0}) × ℤ × K
  close_notifier fd k =
      let (r, k') = sys.close_fd fd k in
      if is_negative fd then (ok tt, fd, k) else elim r [
        | failed e ↦ (err (from_errno e), minus_one, k')
        | returned n ↦ (ok tt, minus_one, k')
      ]

  -- The move assignment from another notifier: what each holds then.
  unfoldable pub move_notifier : ℤ → ℤ → K → ℤ × ℤ × K
  unfolding close_notifier
  move_notifier fd other k = let (r, closed, k') = close_notifier fd k in (other, minus_one, k')

-- BlockingState, which awaiter and worker share.
pub record BlockingState (A : Type 0) : Type 0 where
  pub notifier : ℤ
  pub result : Result A

abbrev pub not_completed : SystemError
not_completed = made Errc.operation_canceled "blocking task not completed"

abbrev pub threw : SystemError
threw = made Errc.operation_not_permitted "exception in spawn_blocking task"

-- BlockingAwaiter: the shared state, the job that `set_work` made, and the address of `readiness_`.
pub record BlockingAwaiter : Type 0 where
  pub work : ℕ
  pub readiness : ℕ

abbrev pub blocking_state : {A : Type 0} → ℤ → BlockingState A
blocking_state fd = record { notifier = fd; result = err not_completed }

-- What the function of `set_work` comes to: its answer, or an error if it throws (`none`).
abbrev pub completes : {A : Type 0} → Option A → Result A
completes none = err threw
completes (some a) = ok a

-- The closure of `set_work` on a worker thread, after the function: the result is stored, then the eventfd written.
unfoldable pub store_outcome : {A : Type 0} → Option A → BlockingState A → BlockingState A
store_outcome outcome s = record s { result = completes outcome }

module _ {K A : Type 0} (sys : EventfdSystem K) where
  unfoldable pub notify_stored : BlockingState A → K → BlockingState A × K
  notify_stored s k =
      let (sent, k') = notify_fd sys s.notifier k in
      let final : Result A = elim sent [
        | ok u ↦ s.result
        | err e ↦ if has_value s.result then err e else s.result
      ] in
      (record s { result = final }, k')

-- The entry of the awaiter: no state cell.
abbrev pub blocking_entry : ℕ → BlockingAwaiter → PendingEntry
blocking_entry h a = record {
  handle = some h;
  result = some a.readiness;
  state = none;
  completion = WaitState.ready;
}

module _ {K A : Type 0} (epoll : Epoll K) where
  unfoldable pub blocking_suspend :
      ℕ
      → BlockingAwaiter
      → BlockingState A
      → Pool
      → World K
      → Bool × BlockingState A × Pool × World K
  blocking_suspend h a s p w =
      let (reg, w1) = register_read epoll s.notifier (blocking_entry h a) w in
      let (sent, p1) = pool_spawn a.work p in
      elim reg [
        | err e ↦ (false, record s { result = err e }, p, w1)
        | ok u ↦ elim sent [
          | err e ↦ (false, record s { result = err e }, p1, deregister epoll s.notifier w1)
          | ok v ↦ (true, s, p1, w1)
        ]
      ]

module _ {K A : Type 0} (epoll : Epoll K) (sys : EventfdSystem K) where
  unfoldable pub blocking_resume : BlockingState A → World K → Result A × World K
  blocking_resume s w =
      let (ack, k) = acknowledge sys s.notifier w.kernel in
      let w1 = deregister epoll s.notifier (record w { kernel = k }) in
      elim ack [ err e ↦ (err e, w1) | ok n ↦ (s.result, w1) ]
