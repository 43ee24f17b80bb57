-- ===== src/Async/Reactor/Tests.antt =====
-- A kernel that agrees to everything and reports descriptor 5 readable, and the properties of
-- src/async/io_reactor.hpp on it.
use rain.Base.{
  ℕ, ◌+◌, ◌^◌, ◌%◌, ◌≡◌, ◌≢◌, refl, ◌⊎◌, true, false, List, [], ◌∷◌, ◌++◌, none, some, update, pos,
  length, ◌==◌, if◌then◌else◌,
}
use rain.Core.{Errno, returned, ok, err, from_errno}
use rain.Async.Concepts.{WaitState}
use rain.Async.Reactor.Slots.{EpollEvents, occurred, Epoll, PendingEntry, World, empty_entry}
use rain.Async.Reactor.Poll.{fire, rearm_or_erase, handle_event, handle_events, poll}
use rain.Async.Reactor.Register.{register_read, register_write}
use rain.Async.Reactor.Delivery.{poll_counts, handle_event-slots}
use rain.Async.Reactor.Registration.{AllOrNothing, register_lem}

abbrev readable : EpollEvents
readable = record {
  epoll_in = true;
  epoll_out = false;
  epoll_err = false;
  epoll_hup = false;
  epoll_et = false;
  epoll_oneshot = false;
}

-- The kernel counts the calls of `epoll_ctl`.
abbrev agreeable : Epoll ℕ
agreeable = record {
  epoll_create = λ k. (returned 9, k);
  epoll_ctl = λ ep op fd set k. (returned 0, k + 1);
  epoll_wait = λ ep most timeout k. (occurred ((pos 5, readable) ∷ []), k);
  close_epoll = λ ep k. (returned 0, k);
}

-- The wait of handle 7 with its cell at 20.
abbrev a_wait : PendingEntry
a_wait = record { handle = some 7; result = none; state = some 20; completion = WaitState.ready }

abbrev waiting_world : World ℕ
waiting_world = record {
  reactor = record {
    epoll_fd = pos 9;
    slots = update (λ i. empty_entry) 5 (record { read = some a_wait; write = none });
    slots_size = 6;
    ready = [];
  };
  states = λ a. if a == 21 then WaitState.timed_out else WaitState.pending;
  results = λ a. ok 0;
  kernel = 0;
}

-- The poll makes handle 7 ready and decides its wait.
wakes_seven :
    ((poll agreeable (pos 10) waiting_world).0 ≡ ok 1)
    × ((poll agreeable (pos 10) waiting_world).1.reactor.ready ≡ 7 ∷ [])
    × ((poll agreeable (pos 10) waiting_world).1.states 20 ≡ WaitState.ready)
unfolding poll handle_events handle_event fire rearm_or_erase
wakes_seven = (refl, refl, refl)

poll_counts_example :
    (added : List ℕ) × ((poll agreeable (pos 10) waiting_world).1.reactor.ready ≡ [] ++ added)
    × (((n : ℕ) × ((poll agreeable (pos 10) waiting_world).0 ≡ ok n)
          × (n % 2 ^ 32 ≡ length added % 2 ^ 32))
        ⊎ ((x : Errno) × ((poll agreeable (pos 10) waiting_world).0 ≡ err (from_errno x))
            × (added ≡ [])))
poll_counts_example = poll_counts agreeable (pos 10) waiting_world

handle_event-slots_example :
    let slots = (handle_event agreeable (pos 5, readable) (0, waiting_world)).1.reactor.slots in
    ((slots 5).read ≡ none)
    × ((slots 5).write ≡ none)
    × ((j : ℕ) → j ≢ 5 → slots j ≡ waiting_world.reactor.slots j)
handle_event-slots_example = handle_event-slots agreeable (pos 5) 5 readable 0 waiting_world refl

register_lem_example :
    AllOrNothing
      (λ e. e.read)
      (λ e. e.write)
      5
      a_wait
      waiting_world
      (register_read agreeable (pos 5) a_wait waiting_world)
    × AllOrNothing
        (λ e. e.write)
        (λ e. e.read)
        5
        a_wait
        waiting_world
        (register_write agreeable (pos 5) a_wait waiting_world)
register_lem_example = register_lem agreeable 5 a_wait waiting_world
