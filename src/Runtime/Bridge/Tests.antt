-- ===== src/Runtime/Bridge/Tests.antt =====
-- Tests of the bridge, and the property at a concrete input.
use rain.Base.{ℕ, ◌≡◌, refl, pos, minus_one, [], ◌∷◌, Option, none, some, arith}
use rain.Core.{ok, Result}
use rain.Async.Reactor.Slots.{World}
use rain.Runtime.ThreadPool.{Pool, make_pool, pool_spawn}
use rain.Runtime.Bridge.{
  notify_fd, acknowledge, close_notifier, move_notifier, create_notifier, store_outcome,
  notify_stored, blocking_suspend, blocking_resume,
}
use rain.Runtime.Bridge.Samples.{
  Machine, ran_once_more, plain_epoll, one_eventfd, plain_world, an_awaiter, a_schedule,
  writes_well, reads_well,
}
use rain.Runtime.Bridge.Whole.{works, work_step, play_one, play, finish, suspended, spawn_blocking}
use rain.Runtime.Bridge.Whole.Answered.{CountsRuns, Answers, at_wait, whole_lem}
use rain.Sync.Channel.{try_send}
use rain.Async.Reactor.Register.{register_read}

abbrev answers_five : Machine → Option (Option ℕ × Machine)
answers_five k = some (some 5, ran_once_more k)

five_counted : CountsRuns one_eventfd answers_five (λ k. k.runs)
five_counted = record { by_work = λ u k o e. ground (arith, e); by_write = λ fd k. refl }

-- The coroutine at its end.
abbrev at_end : Result ℕ × Pool × World Machine
at_end =
    let m = play one_eventfd answers_five a_schedule (
      at_wait plain_epoll one_eventfd answers_five a_schedule (λ k. k.runs) 6 7 an_awaiter
        (make_pool 1 1) plain_world) in
    finish plain_epoll one_eventfd answers_five a_schedule m.shared m.pool m.world

at_end-reached :
    spawn_blocking plain_epoll one_eventfd answers_five a_schedule 7 an_awaiter
      (make_pool 1 1)
      plain_world
    ≡ some (ok 5, at_end.1, at_end.2)
unfolding spawn_blocking suspended play play_one work_step finish create_notifier blocking_suspend
    store_outcome notify_stored notify_fd blocking_resume acknowledge close_notifier pool_spawn
    make_pool try_send register_read
at_end-reached = refl

whole_lem_example :
    Answers plain_epoll one_eventfd answers_five a_schedule
      (λ k. k.runs)
      7
      an_awaiter
      (make_pool 1 1)
      plain_world
      (ok 5)
      at_end.1
whole_lem_example =
    whole_lem plain_epoll one_eventfd answers_five a_schedule (λ k. k.runs) 7 an_awaiter
      (make_pool 1 1) at_end.1 plain_world at_end.2 (ok 5) five_counted (λ p w. refl, tt)
      writes_well reads_well at_end-reached

-- While the outcome is stored and the eventfd not yet written, the coroutine still waits.
not_yet :
    spawn_blocking plain_epoll one_eventfd answers_five
      (works ∷ works ∷ [])
      7
      an_awaiter
      (make_pool 1 1)
      plain_world
    ≡ none
unfolding spawn_blocking suspended play play_one work_step finish create_notifier blocking_suspend
    store_outcome notify_stored notify_fd blocking_resume acknowledge close_notifier pool_spawn
    make_pool try_send register_read
not_yet = refl

-- A notifier that is closed is closed once, and one that is moved from holds nothing.
closed_already :
    close_notifier one_eventfd minus_one plain_world.kernel ≡ (ok tt, minus_one, plain_world.kernel)
unfolding close_notifier
closed_already = refl

moved_from : (move_notifier one_eventfd (pos 6) (pos 9) plain_world.kernel).1 ≡ minus_one
unfolding move_notifier
moved_from = refl
