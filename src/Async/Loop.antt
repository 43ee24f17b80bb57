-- ===== src/Async/Loop.antt =====
-- src/async/event_loop.hpp: the event loop of a core; its signals are with src/async/signal.hpp. A coroutine is
-- the address of its frame, 0 for none, and the storage of a task is its presence in a list.
pub mod Run
pub mod Acts
pub mod Tasks
pub mod Descriptors
pub mod Moves
pub mod Samples
mod Tests
use Prim.Native.Nat.{bit_or}
use rain.Base.{
  ℕ, zero, suc, ◌+◌, ◌-◌, ◌*◌, ◌/◌, ℤ, pos, minus_one, is_negative, Bool, true, false, not, ◌||◌,
  List, [], ◌∷◌, ◌++◌, Option, none, some, leb, ltb, ◌==◌, if◌then◌else◌,
}
use rain.Core.{Errno, Syscall, returned, failed, SystemError, from_errno, Result, ok, err}
use rain.Async.Concepts.{Done, WaitState, States}
use rain.Async.Timer.Wheel.{Wheel, make_wheel, tick_ns}
use rain.Async.Reactor.Slots.{Epoll, Reactor, World, IoEvent, read_event, edge_trig}
use rain.Async.Reactor.Register.{create_reactor, close_reactor, add}
use rain.Async.Race.{Core}

-- The calls of the loop on the system: epoll, the eventfd (made, written by 1, read), closing, the clock
-- and `errno`.
pub record LoopSystem (K : Type 0) : Type 0 where
  pub epoll : Epoll K
  pub eventfd : K → Syscall × K
  pub write_one : ℤ → K → Syscall × K
  pub read_counter : ℤ → K → Syscall × K
  pub close_eventfd : ℤ → K → K
  pub now : K → ℕ × K
  pub errno : K → Errno

-- EventLoop, with the status of all coroutine frames. `served` are the frames with the token of
-- `graceful_source_`.
pub record Loop (K : Type 0) : Type 0 where
  pub core : Core K
  pub owned_tasks : List ℕ
  pub ready_queue : List ℕ
  pub stop_requested : Bool
  pub graceful_requested : Bool
  pub served : List ℕ
  pub cross_core_fd : ℤ
  pub cross_core_queue : List ℕ
  pub done : Done

abbrev pub kernel_of : {K : Type 0} → Loop K → K
kernel_of l = l.core.world.kernel

abbrev pub with_kernel : {K : Type 0} → Loop K → K → Loop K
with_kernel l k = record l {
  core = record (l.core) { world = record (l.core.world) { kernel = k } };
}

-- `kDefaultPollTimeout`, in nanoseconds.
abbrev pub default_poll_timeout : ℕ
default_poll_timeout = tick_ns * 10

-- The timeout of `poll`, for the next deadline of the timers.
unfoldable pub poll_timeout : Option ℕ → ℕ → ℕ
poll_timeout none now = default_poll_timeout
poll_timeout (some next) now =
    if leb next now
    then 0
    else (if ltb (next - now) default_poll_timeout then next - now else default_poll_timeout)

-- The tasks that `cleanup_completed` leaves.
abbrev pub live : Done → List ℕ → List ℕ
live done [] = []
live done (t ∷ ts) = if t == 0 || done t then live done ts else t ∷ live done ts

module _ {K : Type 0} where
  unfoldable pub enqueue : ℕ → Loop K → Loop K
  enqueue h l = record l {
    owned_tasks = l.owned_tasks ++ (h ∷ []);
    ready_queue = l.ready_queue ++ (h ∷ []);
  }

  unfoldable pub spawn : ℕ → Loop K → Loop K
  spawn h l = enqueue h l

  unfoldable pub spawn_with_handle : ℕ → Loop K → ℕ × Loop K
  spawn_with_handle h l = (h, enqueue h l)

  unfoldable pub spawn_service : ℕ → Loop K → Loop K
  spawn_service h l = spawn h (record l { served = h ∷ l.served })

  unfoldable pub notify : ℕ → Loop K → Loop K
  notify h l = record l { ready_queue = l.ready_queue ++ (h ∷ []) }

  unfoldable pub cleanup_completed : Loop K → Loop K
  cleanup_completed l = record l { owned_tasks = live l.done l.owned_tasks }

module _ {K : Type 0} (system : LoopSystem K) where
  -- A fresh loop on a reactor, at time `now`.
  abbrev pub fresh_loop : World K → ℤ → ℕ → Loop K
  fresh_loop w fd now = record {
    core = record { world = w; wheel = make_wheel now };
    owned_tasks = [];
    ready_queue = [];
    stop_requested = false;
    graceful_requested = false;
    served = [];
    cross_core_fd = fd;
    cross_core_queue = [];
    done = λ h. false;
  }

  -- `create`; a reactor that is given up is closed by its destructor.
  unfoldable pub create : States → (ℕ → Result ℕ) → K → Result (Loop K) × K
  create states results k =
      let (r, k1) = create_reactor system.epoll k in
      elim r [
        | err e ↦ (err e, k1)
        | ok reactor ↦
            let on : K → World K =
              λ k. record { reactor = reactor; states = states; results = results; kernel = k } in
            let (f, k2) = system.eventfd k1 in
            elim f [
              | failed e ↦ (err (from_errno e), (close_reactor system.epoll (on k2)).1.kernel)
              | returned fd ↦
                  let (added, w) =
                    add system.epoll (pos fd) (bit_or read_event edge_trig) (on k2) in
                  elim added [
                    | err e ↦
                        let k3 = system.close_eventfd (pos fd) w.kernel in
                        (err e, (close_reactor system.epoll (record w { kernel = k3 })).1.kernel)
                    | ok u ↦
                        let (now, k3) = system.now w.kernel in
                        (ok (fresh_loop (record w { kernel = k3 }) (pos fd) now), k3)
                  ]
            ]
      ]

  -- The destructor, then that of the reactor.
  unfoldable pub destroy : Loop K → K
  destroy l =
      let k =
        if is_negative l.cross_core_fd
        then kernel_of l
        else system.close_eventfd l.cross_core_fd (kernel_of l) in
      (close_reactor system.epoll (with_kernel l k).core.world).1.kernel

  -- The write to the eventfd that wakes the loop.
  abbrev pub wake_loop : Loop K → Loop K
  wake_loop l =
      if is_negative l.cross_core_fd
      then l
      else with_kernel l (system.write_one l.cross_core_fd (kernel_of l)).1

  -- `submit`, by any thread: under the mutex, then the write of 8 bytes.
  unfoldable pub submit : ℕ → Loop K → Result (Unit {0}) × Loop K
  submit h l =
      let l1 = record l { cross_core_queue = l.cross_core_queue ++ (h ∷ []) } in
      let (r, k) = system.write_one l1.cross_core_fd (kernel_of l1) in
      let l2 = with_kernel l1 k in
      let sent : Result (Unit {0}) = elim r [
        | failed e ↦ err (from_errno e)
        | returned n ↦ if n == 8 then ok tt else err (from_errno (system.errno k))
      ] in
      (sent, l2)

  unfoldable pub request_stop : Loop K → Loop K
  request_stop l = wake_loop (record l { stop_requested = true })

  -- `callbacks` runs the stop callbacks that are registered with the token, on the caller's thread; a
  -- source runs them at the first request only.
  unfoldable pub request_graceful_stop : (Loop K → Loop K) → Loop K → Loop K
  request_graceful_stop callbacks l =
      if l.graceful_requested
      then wake_loop l
      else wake_loop (callbacks (record l { graceful_requested = true }))

  unfoldable pub drain_cross_core : Loop K → Loop K
  drain_cross_core l =
      let l1 = record l {
        ready_queue = l.ready_queue ++ l.cross_core_queue;
        owned_tasks = l.owned_tasks ++ l.cross_core_queue;
        cross_core_queue = [];
      } in
      with_kernel l1 (system.read_counter l1.cross_core_fd (kernel_of l1)).1
