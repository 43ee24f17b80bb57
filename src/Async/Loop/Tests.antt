-- ===== src/Async/Loop/Tests.antt =====
-- Tests of the event loop, and the properties at concrete inputs.
use rain.Base.{ℕ, ◌≡◌, ◌≢◌, refl, inl, inr, true, [], some, arith}
use rain.Async.Reactor.Slots.{reactor_drain_ready_into}
use rain.Async.Timer.Wheel.{
  fire_all, cascade, cascade_one, replace_all, make_wheel, tick, process_current_slot, cascaded,
}
use rain.Async.Timer.Queries.{next_deadline, advance_to, advance_loop, drain_ready_into}
use rain.Async.Reactor.Poll.{poll, handle_events}
use rain.Async.Loop.{
  Loop, spawn, enqueue, submit, drain_cross_core, cleanup_completed, poll_timeout,
}
use rain.Async.Loop.Run.{
  run, run_round, resume_all, resume_ready, look_again, poll_io, take_io, take_timers,
}
use rain.Async.Loop.Acts.{Has, Acts, nothing, and_act, submits}
use rain.Async.Loop.Tasks.{run-Has, run_completes}
use rain.Async.Loop.Samples.{counting, empty_loop, end_it, end_it-Acts}

abbrev one_task : Loop ℕ
unfolding spawn enqueue
one_task = spawn 1 empty_loop

-- Another thread that hands over task 2.
abbrev hand_over : Loop ℕ → Loop ℕ
hand_over l = (submit counting 2 l).1

hand_over-Acts : (l : Loop ℕ) → Acts counting l (hand_over l)
hand_over-Acts l = and_act nothing (submits 2)

abbrev one : ℕ
one = 1

one_ne_zero : one ≢ 0
one_ne_zero e = omega (arith, e)

run_completes_example :
    let m = (run counting end_it (λ l. l) 3 one_task).1 in
    (m.done 1 ≡ true) × (m.owned_tasks ≡ []) × (m.cross_core_queue ≡ [])
unfolding run run_round resume_all resume_ready look_again drain_cross_core cleanup_completed spawn
    enqueue
run_completes_example =
    run_completes counting end_it (λ l. l) end_it-Acts (λ l. nothing) 3 1 one_task one_ne_zero
      (inr (inl (omega arith))) refl refl

run-Has_example : Has 1 (run counting end_it hand_over 3 one_task).1
unfolding one_task
run-Has_example =
    run-Has counting end_it hand_over end_it-Acts hand_over-Acts 3 1 one_task one_ne_zero
      (inr (inl (omega arith)))

-- A task that another thread hands over before the loop starts is run, too.
handed_over : (run counting end_it (λ l. l) 3 (hand_over empty_loop)).1.done 2 ≡ true
unfolding run run_round resume_all resume_ready look_again drain_cross_core cleanup_completed submit
    poll_io take_io take_timers poll handle_events reactor_drain_ready_into next_deadline
    poll_timeout advance_to advance_loop tick process_current_slot cascaded drain_ready_into
    make_wheel fire_all cascade cascade_one replace_all
handed_over = refl

-- The timeout of a poll: ten ticks, less when a deadline comes before, and none when one has passed.
far_deadline : poll_timeout (some 90_000_000) 1_000_000 ≡ 10_000_000
unfolding poll_timeout
far_deadline = refl

near_deadline : poll_timeout (some 4_000_000) 1_000_000 ≡ 3_000_000
unfolding poll_timeout
near_deadline = refl

past_deadline : poll_timeout (some 500_000) 1_000_000 ≡ 0
unfolding poll_timeout
past_deadline = refl
