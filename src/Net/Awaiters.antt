-- ===== src/Net/Awaiters.antt =====
-- src/net/io_awaiters.hpp and src/net/accept_awaiter.hpp: waiting for a descriptor, with cancellation. The
-- awaiters live in the cells of the loop's core: `state` and `readiness` are the addresses of `state_` and
-- `readiness_`.
pub mod Timed
pub mod Cancelling
pub mod Freed
pub mod Race
mod Tests
use rain.Base.{
  ℕ, ◌+◌, ◌-◌, min, ℤ, Bool, true, false, List, [], ◌∷◌, ◌++◌, Option, none, some, ◌==◌,
  if◌then◌else◌, update, take, drop,
}
use rain.Core.{
  Errno, Syscall, returned, failed, SystemError, made, from_errno, of_code, Errc, Result, ok, err,
}
use rain.Async.Concepts.{WaitState, is_pending}
use rain.Async.Reactor.Slots.{Epoll, PendingEntry, World, IoEvent, read_event, write_event}
use rain.Async.Reactor.Register.{register_read, register_write, deregister_dir}
use rain.Async.Loop.{Loop, notify}

-- `armed` says that a stop callback is in place, `stop_possible` that the token has a source.
pub record ReadyAwaiter : Type 0 where
  pub fd : ℤ
  pub handle : Option ℕ
  pub state : ℕ
  pub readiness : ℕ
  pub stop_possible : Bool
  pub armed : Bool

abbrev pub io_cancelled_error : SystemError
io_cancelled_error = made Errc.operation_canceled "io operation cancelled"

abbrev pub accept_cancelled : SystemError
accept_cancelled = made Errc.operation_canceled "accept cancelled (graceful shutdown)"

-- `sockaddr_storage` as bytes, and `SocketAddress::from_raw`, which clamps the length that the kernel gives.
abbrev pub storage_size : ℕ
storage_size = 128

unfoldable pub from_raw : List ℕ → List ℕ → ℕ → List ℕ
from_raw zeros raw len = let n = min len storage_size in take n raw ++ drop n zeros

-- `accept4` answers a descriptor, the peer's storage and its length, or fails.
pub data Accepted : Type 0 where
  accepted : ℤ → List ℕ → ℕ → Accepted
  not_accepted : Errno → Accepted

pub record AcceptAwaiter : Type 0 where
  pub wait : ReadyAwaiter
  pub eager : Option (ℤ × List ℕ × ℕ)

-- The entry that an awaiter registers.
abbrev pub wait_entry : ℕ → ReadyAwaiter → PendingEntry
wait_entry h a = record {
  handle = some h;
  result = some a.readiness;
  state = some a.state;
  completion = WaitState.ready;
}

module _ {K : Type 0} where
  abbrev pub world_of : Loop K → World K
  world_of l = l.core.world

  abbrev pub with_world : Loop K → World K → Loop K
  with_world l w = record l { core = record (l.core) { world = w } }

  abbrev pub set_state : ℕ → WaitState → Loop K → Loop K
  set_state p s l = with_world l (record (world_of l) { states = update (world_of l).states p s })

  abbrev pub set_readiness : ℕ → Result ℕ → Loop K → Loop K
  set_readiness p r l =
      with_world l (record (world_of l) { results = update (world_of l).results p r })

  -- `if (g_event_loop && handle) g_event_loop->notify(handle)`; `on_loop` says that the thread has a loop.
  abbrev pub notify_waiter : Bool → Option ℕ → Loop K → Loop K
  unfolding notify
  notify_waiter false h l = l
  notify_waiter true none l = l
  notify_waiter true (some h) l = notify h l

  -- The end of `await_suspend`: a failed registration is kept as the readiness, and the coroutine goes on;
  -- else the stop callback is put in place.
  abbrev after_register :
      ReadyAwaiter → Loop K → Result (Unit {0}) × World K → Bool × ReadyAwaiter × Loop K
  after_register a l (ok u, w) = (true, record a { armed = a.stop_possible }, with_world l w)
  after_register a l (err e, w) = (false, a, set_readiness a.readiness (err e) (with_world l w))

  -- `await_resume` of a ReadReadyAwaiter or a WriteReadyAwaiter; it removes the stop callback.
  unfoldable pub ready_resume : ReadyAwaiter → Loop K → Result (Unit {0}) × ReadyAwaiter
  ready_resume a l =
      let after = record a { armed = false } in
      elim ((world_of l).states a.state) [
        | WaitState.cancelled ↦ (err io_cancelled_error, after)
        | _ ↦ elim ((world_of l).results a.readiness) [
          | err e ↦ (err e, after)
          | ok n ↦ (ok tt, after)
        ]
      ]

  -- That of a ConnectAwaiter; `getsockopt` answers the pending error of the socket.
  unfoldable pub connect_resume :
      (ℤ → K → Syscall × K) → ReadyAwaiter → Loop K → Result (Unit {0}) × ReadyAwaiter × Loop K
  connect_resume getsockopt a l =
      let after = record a { armed = false } in
      let w = world_of l in
      let (r, k) = getsockopt a.fd w.kernel in
      let l' = with_world l (record w { kernel = k }) in
      elim (w.states a.state) [
        | WaitState.cancelled ↦ (err io_cancelled_error, after, l)
        | _ ↦ elim (w.results a.readiness) [
          | err e ↦ (err e, after, l)
          | ok n ↦ elim r [
            | failed e ↦ (err (from_errno e), after, l')
            | returned code ↦
                if code == 0
                then (ok tt, after, l')
                else (err (of_code code "connect failed"), after, l')
          ]
        ]
      ]

  -- `await_ready` of an AcceptAwaiter takes a connection that is there already.
  unfoldable pub accept_ready :
      (ℤ → K → Accepted × K) → AcceptAwaiter → Loop K → Bool × AcceptAwaiter × Loop K
  accept_ready accept4 a l =
      let w = world_of l in
      let (r, k) = accept4 a.wait.fd w.kernel in
      let l' = with_world l (record w { kernel = k }) in
      elim r [
        | accepted fd peer len ↦ (true, record a { eager = some (fd, peer, len) }, l')
        | not_accepted e ↦ (false, a, l')
      ]

  -- `await_resume` of an AcceptAwaiter: the eager connection, or one that is there now.
  unfoldable pub accept_resume :
      List ℕ
      → (ℤ → K → Accepted × K)
      → AcceptAwaiter
      → Loop K
      → Result (ℤ × List ℕ) × AcceptAwaiter × Loop K
  unfolding from_raw
  accept_resume zeros accept4 a l =
      let after = record a { wait = record (a.wait) { armed = false } } in
      let w = world_of l in
      let (r, k) = accept4 a.wait.fd w.kernel in
      let l' = with_world l (record w { kernel = k }) in
      elim a.eager [
        | some (fd, peer, len) ↦ (ok (fd, from_raw zeros peer len), after, l)
        | none ↦ elim (w.states a.wait.state) [
          | WaitState.cancelled ↦ (err accept_cancelled, after, l)
          | _ ↦ elim (w.results a.wait.readiness) [
            | err e ↦ (err e, after, l)
            | ok n ↦ elim r [
              | not_accepted e ↦ (err (from_errno e), after, l')
              | accepted fd peer len ↦ (ok (fd, from_raw zeros peer len), after, l')
            ]
          ]
        ]
      ]

module _ {K : Type 0} (epoll : Epoll K) where
  -- `cancel_io_wait`, which a stop callback runs.
  unfoldable pub cancel_io_wait : Bool → ℤ → IoEvent → ℕ → Option ℕ → Loop K → Loop K
  unfolding deregister_dir
  cancel_io_wait on_loop fd dir state handle l =
      let l1 = set_state state WaitState.cancelled l in
      let l2 = with_world l1 (deregister_dir epoll fd dir (world_of l1)) in
      if is_pending ((world_of l).states state) then notify_waiter on_loop handle l2 else l

  -- `await_suspend` of the coroutine `h`, in each direction.
  unfoldable pub read_ready_suspend : ℕ → ReadyAwaiter → Loop K → Bool × ReadyAwaiter × Loop K
  read_ready_suspend h a l =
      let a' = record a { handle = some h } in
      after_register a' l (register_read epoll a.fd (wait_entry h a') (world_of l))

  unfoldable pub write_ready_suspend : ℕ → ReadyAwaiter → Loop K → Bool × ReadyAwaiter × Loop K
  write_ready_suspend h a l =
      let a' = record a { handle = some h } in
      after_register a' l (register_write epoll a.fd (wait_entry h a') (world_of l))

  unfoldable pub connect_suspend : ℕ → ReadyAwaiter → Loop K → Bool × ReadyAwaiter × Loop K
  connect_suspend h a l =
      let a' = record a { handle = some h } in
      after_register a' l (register_write epoll a.fd (wait_entry h a') (world_of l))

  unfoldable pub accept_suspend : ℕ → AcceptAwaiter → Loop K → Bool × AcceptAwaiter × Loop K
  accept_suspend h a l =
      let wait = record (a.wait) { handle = some h } in
      let (stays, wait', l') =
        after_register wait l (register_read epoll wait.fd (wait_entry h wait) (world_of l)) in
      (stays, record a { wait = wait' }, l')

  -- The stop callbacks of a ReadReadyAwaiter, of a WriteReadyAwaiter or a ConnectAwaiter, and of an
  -- AcceptAwaiter.
  unfoldable pub cancel_read : Bool → ReadyAwaiter → Loop K → Loop K
  unfolding cancel_io_wait
  cancel_read on_loop a l = cancel_io_wait on_loop a.fd read_event a.state a.handle l

  unfoldable pub cancel_write : Bool → ReadyAwaiter → Loop K → Loop K
  unfolding cancel_io_wait
  cancel_write on_loop a l = cancel_io_wait on_loop a.fd write_event a.state a.handle l

  unfoldable pub cancel_accept : Bool → AcceptAwaiter → Loop K → Loop K
  unfolding deregister_dir
  cancel_accept on_loop a l =
      let l1 = set_state a.wait.state WaitState.cancelled l in
      let l2 = with_world l1 (deregister_dir epoll a.wait.fd read_event (world_of l1)) in
      if is_pending ((world_of l).states a.wait.state)
      then notify_waiter on_loop a.wait.handle l2
      else l
