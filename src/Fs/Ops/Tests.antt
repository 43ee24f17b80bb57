-- ===== src/Fs/Ops/Tests.antt =====
-- An operation of files through the pool, and the property at a concrete input.
use rain.Base.{ℕ, ◌+◌, ◌≡◌, refl, ◌⊎◌, List, [], ◌∷◌, ◌++◌, true, false, Bool, Option, some, arith}
use rain.Core.{SystemError, Result, ok, err, Errno, returned, got}
use rain.Async.Reactor.Slots.{World}
use rain.Async.Reactor.Register.{register_read}
use rain.Sync.Channel.{try_send}
use rain.Runtime.ThreadPool.{Pool, make_pool, pool_spawn}
use rain.Runtime.Bridge.{
  create_notifier, notify_fd, acknowledge, close_notifier, store_outcome, notify_stored,
  blocking_suspend, blocking_resume,
}
use rain.Runtime.Bridge.Whole.{
  Happening, works, work_step, play_one, play, finish, suspended, spawn_blocking,
}
use rain.Runtime.Bridge.Whole.Answered.{CountsRuns, at_wait}
use rain.Runtime.Bridge.Samples.{
  Machine, ran_once_more, plain_epoll, one_eventfd, plain_world, an_awaiter, a_schedule,
  writes_well, reads_well,
}
use rain.Fs.System.{System}
use rain.Fs.Metadata.{unstated}
use rain.Fs.Detail.{exists_sync}
use rain.Fs.Ops.{Caller, at_once, no_throw, spawn_blocking_result, no_loop, ops_exists}
use rain.Fs.Ops.Handed.{handed_lem}

abbrev plain_system : System Machine
plain_system = record {
  open_call = λ path flags mode k. (returned 5, k);
  close_call = λ fd k. (returned 0, k);
  write_call = λ fd bytes k. (returned 0, k);
  read_call = λ fd len k. (got [], k);
  pread_call = λ fd len offset k. (got [], k);
  pwrite_call = λ fd bytes offset k. (returned 0, k);
  access_call = λ path k. (returned 0, ran_once_more k);
  unlink_call = λ path k. (returned 0, k);
  fstat_call = λ fd k. (unstated Errno.eintr, k);
  stat_call = λ path k. (unstated Errno.eintr, k);
  lstat_call = λ path k. (unstated Errno.eintr, k);
}

abbrev a_caller : Caller
a_caller = record { has_reactor = true; has_pool = true; frame = 7; awaiter = an_awaiter }

-- The function of the job asks once, with `access`, whether the file exists.
abbrev looks : Machine → Option (Result Bool × Machine)
unfolding exists_sync
looks = at_once (exists_sync plain_system "data")

looks_counted : CountsRuns one_eventfd (no_throw looks) (λ k. k.runs)
unfolding exists_sync
looks_counted = record { by_work = λ u k o e. ground (arith, e); by_write = λ fd k. refl }

-- The bridge at its end.
abbrev at_end : Result (Result Bool) × Pool × World Machine
at_end =
    let m = play one_eventfd (no_throw looks) a_schedule (
      at_wait plain_epoll one_eventfd (no_throw looks) a_schedule (λ k. k.runs) 6 7 an_awaiter
        (make_pool 1 1) plain_world) in
    finish plain_epoll one_eventfd (no_throw looks) a_schedule m.shared m.pool m.world

found :
    spawn_blocking_result plain_epoll one_eventfd a_schedule a_caller looks
      (make_pool 1 1)
      plain_world
    ≡ some (ok true, at_end.1, at_end.2)
unfolding spawn_blocking_result spawn_blocking suspended play play_one work_step finish
    create_notifier blocking_suspend store_outcome notify_stored notify_fd blocking_resume
    acknowledge close_notifier pool_spawn make_pool try_send register_read exists_sync
found = refl

handed_lem_example :
    ((e : SystemError) × (ok true ≡ err e) × (at_end.1.accepted ≡ (make_pool 1 1).accepted))
    ⊎ ((a_caller.has_reactor ≡ true)
        × (a_caller.has_pool ≡ true)
        × ((fd : ℕ) × (before : List (Happening Machine)) × (later : List (Happening Machine))
            × (k : Machine) × (let m =
                  at_wait plain_epoll one_eventfd
                    (no_throw looks)
                    a_schedule
                    (λ k. k.runs)
                    fd
                    7
                    an_awaiter
                    (make_pool 1 1)
                    plain_world in
                (m.pool.accepted ≡ (make_pool 1 1).accepted ++ (11 ∷ []))
                × (a_schedule ≡ before ++ (works ∷ later))
                × (looks (play one_eventfd (no_throw looks) before m).world.kernel
                    ≡ some (ok true, k))
                × ((play one_eventfd (no_throw looks) a_schedule m).world.kernel.runs
                    ≡ m.world.kernel.runs + 1))))
handed_lem_example =
    handed_lem plain_epoll one_eventfd a_schedule a_caller looks (λ k. k.runs) (make_pool 1 1)
      at_end.1 plain_world at_end.2 (ok true) looks_counted (λ p w. refl, tt) writes_well reads_well
      found

-- Without an event loop nothing is handed over.
no_event_loop :
    ops_exists plain_epoll one_eventfd []
      (record a_caller { has_reactor = false })
      plain_system
      "data"
      (make_pool 1 1)
      plain_world
    ≡ some (err no_loop, make_pool 1 1, plain_world)
unfolding ops_exists spawn_blocking_result
no_event_loop = refl
