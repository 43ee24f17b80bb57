-- ===== src/Net/Awaiters/Timed.antt =====
-- src/net/io_awaiters.hpp: TimedReadyAwaiter, where readiness, a timer and a cancellation race.
use rain.Base.{ℕ, ℤ, Bool, true, false, some, ◌==◌, if◌then◌else◌}
use rain.Core.{SystemError, Result, ok, err}
use rain.Async.Concepts.{WaitState, is_pending}
use rain.Async.Timer.Wheel.{Wheel, schedule, cancel_timer}
use rain.Async.Reactor.Slots.{Epoll, PendingEntry, World, IoEvent, read_event, write_event}
use rain.Async.Reactor.Register.{register_read, register_write, deregister_dir}
use rain.Async.Loop.{Loop}
use rain.Net.Awaiters.{
  ReadyAwaiter, wait_entry, world_of, with_world, set_state, set_readiness, notify_waiter,
  io_cancelled_error,
}
use rain.Net.StreamIo.{Direction, reading, writing, read_timed_out, write_timed_out}

-- A timeout that is not positive is 0.
pub record TimedAwaiter : Type 0 where
  pub wait : ReadyAwaiter
  pub direction : Direction
  pub timeout : ℕ
  pub timer_id : ℕ

abbrev pub event_of : Direction → IoEvent
event_of reading = read_event
event_of writing = write_event

abbrev pub timed_out : Direction → SystemError
timed_out reading = read_timed_out
timed_out writing = write_timed_out

module _ {K : Type 0} where
  abbrev pub with_wheel : Loop K → Wheel → Loop K
  with_wheel l wheel = record l { core = record (l.core) { wheel = wheel } }

  abbrev pub cancel_its_timer : TimedAwaiter → Loop K → Loop K
  cancel_its_timer a l = with_wheel l (cancel_timer a.timer_id l.core.wheel).1

module _ {K : Type 0} (epoll : Epoll K) where
  unfoldable pub register_dir : Direction → ℤ → PendingEntry → World K → Result (Unit {0}) × World K
  register_dir reading fd e w = register_read epoll fd e w
  register_dir writing fd e w = register_write epoll fd e w

  unfoldable pub deregister_its : TimedAwaiter → Loop K → Loop K
  deregister_its a l =
      with_world l (deregister_dir epoll a.wait.fd (event_of a.direction) (world_of l))

  unfoldable pub timed_suspend : ℕ → TimedAwaiter → Loop K → Bool × TimedAwaiter × Loop K
  timed_suspend h a l =
      let wait = record (a.wait) { handle = some h } in
      let (id, wheel) =
        schedule a.timeout (some h) (some wait.state) WaitState.timed_out l.core.wheel in
      let a1 = record a { wait = wait; timer_id = id } in
      let (r, w) = register_dir a.direction wait.fd (wait_entry h wait) (world_of l) in
      let l1 = with_world (with_wheel l wheel) w in
      if a.timeout == 0 then (false, a, set_state a.wait.state WaitState.timed_out l) else elim r [
        | ok u ↦ (true, record a1 { wait = record wait { armed = wait.stop_possible } }, l1)
        | err e ↦ (false, a1, set_readiness wait.readiness (err e) (cancel_its_timer a1 l1))
      ]

  -- The stop callback.
  unfoldable pub timed_cancel : Bool → TimedAwaiter → Loop K → Loop K
  timed_cancel on_loop a l =
      let l1 = cancel_its_timer a (set_state a.wait.state WaitState.cancelled l) in
      if is_pending ((world_of l).states a.wait.state)
      then notify_waiter on_loop a.wait.handle (deregister_its a l1)
      else l

  unfoldable pub timed_resume : TimedAwaiter → Loop K → Result (Unit {0}) × TimedAwaiter × Loop K
  timed_resume a l =
      let after = record a { wait = record (a.wait) { armed = false } } in
      let no_timer = cancel_its_timer a l in
      let ended : Result (Unit {0}) × TimedAwaiter × Loop K =
        elim ((world_of l).results a.wait.readiness) [
          | err e ↦ (err e, after, no_timer)
          | ok n ↦ (ok tt, after, no_timer)
        ] in
      elim ((world_of l).states a.wait.state) [
        | WaitState.cancelled ↦ (err io_cancelled_error, after, no_timer)
        | WaitState.timed_out ↦ (err (timed_out a.direction), after, deregister_its a l)
        | WaitState.pending ↦ ended
        | WaitState.ready ↦ ended
      ]
