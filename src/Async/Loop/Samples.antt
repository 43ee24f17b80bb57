-- ===== src/Async/Loop/Samples.antt =====
-- A system and a loop for the tests of src/async/event_loop.hpp and of what runs event loops.
use rain.Base.{arith, update, true, ℕ, ◌-◌, ◌+◌, refl, [], pos}
use rain.Core.{returned, ok, Errno, closes, one_at}
use rain.Async.Concepts.{WaitState}
use rain.Async.Reactor.Slots.{Epoll, occurred, make_reactor, World}
use rain.Async.Loop.Descriptors.{Counts}
use rain.Async.Loop.Acts.{Acts, nothing, and_act, ends}
use rain.Async.Loop.{LoopSystem, Loop, fresh_loop}

-- A system whose state says whether descriptor 4 is open, and on which all calls succeed; 4 is the eventfd.
abbrev pub counting_epoll : Epoll ℕ
counting_epoll = record {
  epoll_create = λ k. (returned 3, k);
  epoll_ctl = λ e op fd ev k. (returned 0, k);
  epoll_wait = λ e n ms k. (occurred [], k);
  close_epoll = λ e k. (returned 0, k - closes 4 e);
}

abbrev pub counting : LoopSystem ℕ
counting = record {
  epoll = counting_epoll;
  eventfd = λ k. (returned 4, k + 1);
  write_one = λ fd k. (returned 8, k);
  read_counter = λ fd k. (returned 8, k);
  close_eventfd = λ fd k. k - closes 4 fd;
  now = λ k. (0, k);
  errno = λ k. Errno.eagain;
}

pub counting-Counts : Counts counting 4 (λ k. k)
unfolding one_at
counting-Counts = record {
  epoll_create_counts = λ k. omega arith;
  eventfd_counts = λ k. refl;
  epoll_ctl_counts = λ e op fd ev k. refl;
  close_eventfd_counts = λ fd k. refl;
  close_epoll_counts = λ fd k. refl;
  now_counts = λ k. refl;
}

abbrev pub quiet_world : World ℕ
quiet_world = record {
  reactor = make_reactor (pos 3);
  states = λ a. WaitState.pending;
  results = λ a. ok 0;
  kernel = 0;
}

-- A loop that owns nothing.
abbrev pub empty_loop : Loop ℕ
empty_loop = fresh_loop counting quiet_world (pos 4) 0

-- Coroutines that end when they are resumed.
abbrev pub end_it : ℕ → Loop ℕ → Loop ℕ
end_it h l = record l { done = update l.done h true }

pub end_it-Acts : (h : ℕ) (l : Loop ℕ) → Acts counting l (end_it h l)
end_it-Acts h l = and_act nothing (ends h)
