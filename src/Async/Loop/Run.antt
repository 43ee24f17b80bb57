-- ===== src/Async/Loop/Run.antt =====
-- src/async/event_loop.hpp: `run` and `run_until_complete`.
use rain.Base.{
  ℕ, zero, suc, ◌/◌, pos, Bool, ◌||◌, List, [], ◌∷◌, Option, none, some, ◌==◌, if◌then◌else◌,
}
use rain.Core.{Result, ok, err}
use rain.Async.Timer.Queries.{advance_to, next_deadline, drain_ready_into}
use rain.Async.Reactor.Slots.{reactor_drain_ready_into}
use rain.Async.Reactor.Poll.{poll, set_reactor}
use rain.Async.Race.{with_states}
use rain.Async.Loop.{
  LoopSystem, Loop, kernel_of, with_kernel, poll_timeout, cleanup_completed, drain_cross_core,
  enqueue,
}

abbrev pub is_empty : List ℕ → Bool
is_empty [] = Bool.true
is_empty (x ∷ xs) = Bool.false

-- `system` answers the calls; `resume` is the execution of a coroutine until it suspends or ends, and
-- `others` what the other threads do to the loop before the owner takes the lock of the inbox.
module _ {K : Type 0} (system : LoopSystem K) (resume : ℕ → Loop K → Loop K)
    (others : Loop K → Loop K) where
  -- The scratch of ready coroutines, one after the other.
  unfoldable pub resume_all : List ℕ → Loop K → Loop K
  resume_all [] l = l
  resume_all (h ∷ hs) l = resume_all hs (if h == 0 || l.done h then l else resume h l)

  -- 3 and 4: the timeout up to the next deadline, and `poll`, which counts in milliseconds.
  unfoldable pub poll_io : Loop K → Result ℕ × Loop K
  poll_io l =
      let (now, k) = system.now (kernel_of l) in
      let l1 = with_kernel l k in
      let ms = poll_timeout (next_deadline l.core.wheel) now / 1_000_000 in
      let (r, w) = poll system.epoll (pos ms) l1.core.world in
      (r, record l1 { core = record (l1.core) { world = w } })

  -- 5: what the reactor woke.
  unfoldable pub take_io : Loop K → Loop K
  take_io l =
      let (ready, reactor) = reactor_drain_ready_into l.ready_queue l.core.world.reactor in
      record l {
        core = record (l.core) { world = set_reactor l.core.world reactor };
        ready_queue = ready;
      }

  -- 6: the timers up to now, and what they woke.
  unfoldable pub take_timers : Loop K → Loop K
  take_timers l =
      let (now, k) = system.now (kernel_of l) in
      let l1 = with_kernel l k in
      let f = advance_to now l1.done l1.core.world.states l1.core.wheel in
      let (ready, wheel) = drain_ready_into l1.ready_queue f.wheel in
      record l1 { core = with_states l1.core f.states wheel; ready_queue = ready }

  -- 1 and 2, and the last look at the inbox when nothing is owned.
  unfoldable pub resume_ready : Loop K → Loop K
  resume_ready l = cleanup_completed (resume_all l.ready_queue (record l { ready_queue = [] }))

  unfoldable pub look_again : Loop K → Loop K
  look_again l = if is_empty l.owned_tasks then drain_cross_core system (others l) else l

  -- One iteration: what `run` returns, if it returns, and the loop.
  unfoldable pub run_round : Loop K → Option (Result (Unit {0})) × Loop K
  run_round l =
      let l1 = look_again (resume_ready l) in
      let (r, l2) = poll_io l1 in
      let next = drain_cross_core system (others (take_timers (take_io l2))) in
      if is_empty l1.owned_tasks
      then (some (ok tt), l1)
      else elim r [ err e ↦ (some (err e), l2) | ok n ↦ (none, next) ]

  -- `run`, for at most `fuel` iterations; `none` when it is still running then.
  unfoldable pub run : ℕ → Loop K → Option (Result (Unit {0})) × Loop K
  run zero l = (none, l)
  run (suc fuel) l =
      let (r, l') = run_round l in
      let rest = run fuel l' in
      if l.stop_requested then (some (ok tt), l) else elim r [ none ↦ rest | some r ↦ (some r, l') ]

  unfoldable pub run_until_complete : ℕ → ℕ → Loop K → Option (Result (Unit {0})) × Loop K
  run_until_complete fuel h l = run fuel (enqueue h l)
