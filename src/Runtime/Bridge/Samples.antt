-- ===== src/Runtime/Bridge/Samples.antt =====
-- Eventfds, a reactor and an awaiter for the tests of src/runtime/bridge.hpp and of what uses it.
use rain.Base.{ℕ, ◌+◌, ◌≡◌, refl, pos, List, [], ◌∷◌}
use rain.Core.{returned, Errno, ok}
use rain.Async.Concepts.{WaitState}
use rain.Async.Reactor.Slots.{Epoll, occurred, make_reactor, World}
use rain.Runtime.Bridge.{EventfdSystem, counter, notify_fd, acknowledge, BlockingAwaiter}
use rain.Runtime.Bridge.Whole.{Happening, works, elsewhere}

-- The state is the counter of the one eventfd, and how often a function of the pool has run.
pub record Machine : Type 0 where
  pub eventfd_counter : ℕ
  pub runs : ℕ

abbrev pub ran_once_more : Machine → Machine
ran_once_more k = record k { runs = k.runs + 1 }

abbrev pub plain_epoll : Epoll Machine
plain_epoll = record {
  epoll_create = λ k. (returned 3, k);
  epoll_ctl = λ e op fd ev k. (returned 0, k);
  epoll_wait = λ e n ms k. (occurred [], k);
  close_epoll = λ e k. (returned 0, k);
}

abbrev pub one_eventfd : EventfdSystem Machine
one_eventfd = record {
  eventfd = λ k. (returned 6, record k { eventfd_counter = 0 });
  write_one = λ fd k. (returned 8, record k { eventfd_counter = k.eventfd_counter + 1 });
  read_counter = λ fd k. (counter k.eventfd_counter, record k { eventfd_counter = 0 });
  close_fd = λ fd k. (returned 0, k);
  errno = λ k. Errno.eagain;
}

abbrev pub plain_world : World Machine
plain_world = record {
  reactor = make_reactor (pos 3);
  states = λ p. WaitState.pending;
  results = λ p. ok 0;
  kernel = record { eventfd_counter = 0; runs = 0 };
}

abbrev pub an_awaiter : BlockingAwaiter
an_awaiter = record { work = 11; readiness = 40 }

-- The worker runs the function, stores its outcome, another thread does something, and the worker notifies.
abbrev pub a_schedule : List (Happening Machine)
a_schedule = works ∷ works ∷ elsewhere (λ s. s) ∷ works ∷ []

pub writes_well : (fd : ℕ) (k : Machine) → (notify_fd one_eventfd (pos fd) k).0 ≡ ok tt
unfolding notify_fd
writes_well fd k = refl

pub reads_well : (fd : ℕ) (k : Machine) → (n : ℕ) × ((acknowledge one_eventfd (pos fd) k).0 ≡ ok n)
unfolding acknowledge
reads_well fd k = (k.eventfd_counter, refl)
