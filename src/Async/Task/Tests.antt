-- ===== src/Async/Task/Tests.antt =====
-- Tests of tasks and join handles.
use rain.Base.{ℕ, ◌≡◌, refl, true, false, some, update}
use rain.Core.{ok, err}
use rain.Async.Task.{
  Frames, new_frame, return_value, no_handle, no_task, task_get, drop_task, join_done, join_resume,
  join_request_stop, promise_request_stop, ensure_stop_state, task_set_cancellation,
  task_stop_token, promise_stop_token,
}

-- Every frame is new; resuming one ends it with 5.
abbrev all_new : Frames ℕ
unfolding new_frame
all_new h = new_frame

abbrev end_with_5 : ℕ → Frames ℕ → Frames ℕ
unfolding return_value
end_with_5 h fs = update fs h (return_value 5 (fs h))

got_5 : (task_get end_with_5 2 3 all_new) ≡ some (ok 5, end_with_5 3 all_new)
unfolding task_get all_new end_with_5
got_5 = refl

no_task_to_get : task_get end_with_5 1 0 all_new ≡ some (err no_handle, all_new)
unfolding task_get
no_task_to_get = refl

nothing_joined : join_resume 0 all_new ≡ err no_task
unfolding join_resume
nothing_joined = refl

-- The event loop destroys the frame of a task that has ended, whose JoinHandle still points to it: `done`
-- of the handle is read from a frame that is no longer alive.
abbrev collected : Frames ℕ
unfolding drop_task end_with_5 all_new
collected = drop_task 3 (end_with_5 3 all_new)

join_reads_it : join_done 3 collected ≡ true
unfolding join_done collected
join_reads_it = refl

frame_gone : (collected 3).alive ≡ false
unfolding collected
frame_gone = refl

-- A frame has no stop state until it is asked for one; asking twice keeps it.
stop_state_stays : (task_stop_token 3 (join_request_stop 3 all_new)).0 ≡ some true
unfolding task_stop_token promise_stop_token join_request_stop promise_request_stop
    ensure_stop_state all_new
stop_state_stays = refl

token_set : (task_set_cancellation (some 8) 3 all_new 3).cancel_token ≡ some 8
unfolding task_set_cancellation all_new
token_set = refl
