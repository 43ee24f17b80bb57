-- ===== src/Net/Awaiters/Tests.antt =====
-- Tests of the awaiters of sockets, and the properties at concrete inputs.
use rain.Base.{
  ℕ, ◌+◌, ◌≡◌, refl, pos, Bool, true, false, [], ◌∷◌, ◌++◌, none, arith, if◌then◌else◌, is_some,
}
use rain.Core.{returned, ok, err}
use rain.Async.Concepts.{WaitState}
use rain.Async.Timer.Slotmap.{lookup, acquire, allocate, activate, encode_id}
use rain.Async.Timer.Wheel.{make_wheel, schedule, schedule_at, place, route}
use rain.Async.Reactor.Slots.{Epoll, occurred, make_reactor}
use rain.Async.Reactor.Poll.{ensure, rearm_or_erase}
use rain.Async.Reactor.Register.{register_read, deregister_dir}
use rain.Async.Loop.{Loop}
use rain.Net.StreamIo.{Direction}
use rain.Net.Awaiters.{
  ReadyAwaiter, AcceptAwaiter, world_of, set_state, accept_suspend, cancel_accept,
  io_cancelled_error, from_raw,
}
use rain.Net.Awaiters.Timed.{
  TimedAwaiter, event_of, timed_suspend, timed_cancel, timed_resume, register_dir, deregister_its,
}
use rain.Net.Awaiters.Freed.{freed}
use rain.Async.Race.{poll_core, polls}
use rain.Net.Awaiters.Race.{begin, then_turn, timed_stops, accept_stops, core_turn, first_wins}
use rain.Net.Awaiters.Cancelling.{timed_cancel_lem}

abbrev agreeing : Epoll ℕ
agreeing = record {
  epoll_create = λ k. (returned 3, k + 1);
  epoll_ctl = λ e op fd ev k. (returned 0, k + 1);
  epoll_wait = λ e n ms k. (occurred [], k + 1);
  close_epoll = λ e k. (returned 0, k + 1);
}

abbrev idle_loop : Loop ℕ
idle_loop = record {
  core = record {
    world = record {
      reactor = make_reactor (pos 3);
      states = λ p. WaitState.pending;
      results = λ p. ok 0;
      kernel = 0;
    };
    wheel = make_wheel 0;
  };
  owned_tasks = [];
  ready_queue = [];
  stop_requested = false;
  graceful_requested = false;
  served = [];
  cross_core_fd = pos 4;
  cross_core_queue = [];
  done = λ h. false;
}

abbrev a_wait : ReadyAwaiter
a_wait = record {
  fd = pos 5;
  handle = none;
  state = 20;
  readiness = 21;
  stop_possible = true;
  armed = false;
}

-- Coroutine 7 waits to accept on descriptor 5.
abbrev accepting : Bool × AcceptAwaiter × Loop ℕ
unfolding accept_suspend register_read ensure
accepting = accept_suspend agreeing 7 (record { wait = a_wait; eager = none }) idle_loop

-- Coroutine 7 waits to read from descriptor 5, for at most 2 ms.
abbrev within_2ms : TimedAwaiter
within_2ms = record {
  wait = a_wait;
  direction = Direction.reading;
  timeout = 2_000_000;
  timer_id = 0;
}

abbrev waiting : Bool × TimedAwaiter × Loop ℕ
unfolding timed_suspend register_dir register_read ensure schedule schedule_at acquire allocate
    activate encode_id place route make_wheel
waiting = timed_suspend agreeing 7 within_2ms idle_loop

timed_cancel_lem_example :
    let l = waiting.2 in
    let m = timed_cancel agreeing true waiting.1 l in
    let (r, b, n) = timed_resume agreeing waiting.1 m in
    (r ≡ err io_cancelled_error)
    × (lookup n.core.wheel.entries waiting.1.timer_id ≡ none)
    × ((world_of n).reactor.slots 5
        ≡ freed (event_of Direction.reading) ((world_of l).reactor.slots 5))
    × (n.ready_queue ≡ (if true then l.ready_queue ++ (7 ∷ []) else l.ready_queue))
    × (b.wait.armed ≡ false)
unfolding waiting
timed_cancel_lem_example =
    timed_cancel_lem agreeing true waiting.1 waiting.2 5 7 refl (omega arith) refl refl

-- The wait has timed out before its stop callback runs, and before the callback of an accept that shares nothing
-- with it, and a turn of the reactor.
abbrev decided_loop : Loop ℕ
unfolding waiting
decided_loop = set_state 20 WaitState.timed_out waiting.2

abbrev raced : Loop ℕ
unfolding decided_loop waiting
raced =
    let l = timed_cancel agreeing false waiting.1 decided_loop in
    let m =
      cancel_accept agreeing true (record { wait = record a_wait { state = 22 }; eager = none })
        l in
    record m { core = poll_core agreeing (pos 10) m.core }

first_wins_example : (world_of raced).states 20 ≡ WaitState.timed_out
unfolding raced decided_loop
first_wins_example = first_wins agreeing 20 {l = decided_loop} refl (
    then_turn
      (then_turn (then_turn begin (timed_stops false waiting.1))
        (accept_stops true (record { wait = record a_wait { state = 22 }; eager = none })))
      (core_turn (polls (pos 10))))

-- Another coroutine waits with a timeout of 0 on the same descriptor: it does not register, but when it goes
-- on it takes the first one's registration away, whose cell is still pending.
abbrev at_once : TimedAwaiter
at_once = record {
  wait = record a_wait { state = 30; readiness = 31 };
  direction = Direction.reading;
  timeout = 0;
  timer_id = 0;
}

abbrev tried : Bool × TimedAwaiter × Loop ℕ
unfolding waiting timed_suspend register_dir register_read ensure
tried = timed_suspend agreeing 8 at_once waiting.2

abbrev after_trial : Loop ℕ
unfolding tried timed_resume deregister_its deregister_dir rearm_or_erase ensure
after_trial = (timed_resume agreeing tried.1 tried.2).2

registered_before : is_some ((world_of waiting.2).reactor.slots 5).read ≡ true
unfolding waiting
registered_before = refl

taken_away : ((world_of after_trial).reactor.slots 5).read ≡ none
unfolding after_trial rearm_or_erase ensure
taken_away = refl

still_pending : (world_of after_trial).states 20 ≡ WaitState.pending
unfolding after_trial rearm_or_erase ensure
still_pending = refl

-- The length that the kernel gives is clamped to the storage.
short_address : from_raw (0 ∷ 0 ∷ 0 ∷ []) (9 ∷ 9 ∷ 9 ∷ []) 2 ≡ 9 ∷ 9 ∷ 0 ∷ []
unfolding from_raw
short_address = refl
