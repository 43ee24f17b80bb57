-- ===== src/Async/Task.antt =====
-- src/async/task.hpp: Task and JoinHandle over a heap of coroutine frames. A handle is an address, 0 for
-- none; of a frame the promise counts, whether it stands at its final suspension, and whether it exists.
pub mod Chains
mod Tests
use rain.Base.{
  ℕ, zero, suc, Bool, true, false, not, ◌||◌, ◌&&◌, Option, none, some, is_some, ◌==◌,
  if◌then◌else◌, update,
}
use rain.Core.{SystemError, made, Errc, Result, ok, err}
use rain.Async.Combinators.{cancelled_error}

-- `promise_type` with its frame. Tokens are stop sources by number; `stop_source` is `none` for
-- `nostopstate`, and else says whether a stop was requested.
pub record Frame (A : Type 0) : Type 0 where
  pub result : Result A
  pub continuation : ℕ
  pub stop_source : Option Bool
  pub cancel_token : Option ℕ
  pub done : Bool
  pub alive : Bool

abbrev pub unhandled : SystemError
unhandled = made Errc.operation_not_permitted "unhandled exception"

abbrev pub no_handle : SystemError
no_handle = made Errc.operation_not_permitted "task has no coroutine handle"

abbrev pub no_task : SystemError
no_task = made Errc.operation_not_permitted "join handle has no task"

abbrev pub Frames : Type 0 → Type 0
Frames A = ℕ → Frame A

-- The move assignment of a JoinHandle, which destroys nothing.
unfoldable pub assign_join : ℕ → ℕ → ℕ × ℕ
assign_join mine other = (other, 0)

-- `await_transform`: the token that the awaited frame or awaiter has then.
unfoldable pub await_transform : Option ℕ → Option ℕ → Option ℕ
await_transform mine its = if is_some mine then mine else its

module _ {A : Type 0} where
  unfoldable pub new_frame : Frame A
  new_frame = record {
    result = err cancelled_error;
    continuation = 0;
    stop_source = none;
    cancel_token = none;
    done = false;
    alive = true;
  }

  -- `co_return`, and an exception that leaves the body; then the frame is at its final suspension.
  unfoldable pub return_value : A → Frame A → Frame A
  return_value a f = record f { result = ok a; done = true }

  unfoldable pub unhandled_exception : Frame A → Frame A
  unhandled_exception f = record f { result = err unhandled; done = true }

  -- `FinalAwaiter::await_suspend`: the coroutine that goes on, if any.
  unfoldable pub final_transfer : Frame A → Option ℕ
  final_transfer f = if f.continuation == 0 then none else some f.continuation

  unfoldable pub ensure_stop_state : Frame A → Frame A
  ensure_stop_state f = if is_some f.stop_source then f else record f { stop_source = some false }

  -- `promise_type::request_stop` and `promise_type::stop_token`.
  unfoldable pub promise_request_stop : Frame A → Frame A
  unfolding ensure_stop_state
  promise_request_stop f = record (ensure_stop_state f) { stop_source = some true }

  unfoldable pub promise_stop_token : Frame A → Option Bool × Frame A
  unfolding ensure_stop_state
  promise_stop_token f = let g = ensure_stop_state f in (g.stop_source, g)

  -- `destroy` of a frame, by the destructor of a Task and before another is moved into it.
  unfoldable pub drop_task : ℕ → Frames A → Frames A
  drop_task h fs = if h == 0 then fs else update fs h (record (fs h) { alive = false })

  -- The move assignment: what both tasks hold then.
  unfoldable pub assign_task : ℕ → ℕ → Frames A → ℕ × ℕ × Frames A
  unfolding drop_task
  assign_task mine other fs = (other, 0, drop_task mine fs)

  -- `co_await` of a task, by the coroutine `continuation`: whether it goes on at once, else which
  -- coroutine runs next, and at the end its value, where there is one.
  unfoldable pub task_ready : ℕ → Frames A → Bool
  task_ready h fs = h == 0 || (fs h).done

  unfoldable pub task_suspend : ℕ → ℕ → Frames A → ℕ × Frames A
  task_suspend continuation h fs = (h, update fs h (record (fs h) { continuation = continuation }))

  unfoldable pub task_resume : ℕ → Frames A → Option A
  task_resume h fs = elim ((fs h).result) [ ok a ↦ some a | err e ↦ none ]

  -- `get`, on fuel: the loop that resumes the task until it is done.
  unfoldable pub task_get :
      (ℕ → Frames A → Frames A) → ℕ → ℕ → Frames A → Option (Result A × Frames A)
  task_get resume zero h fs = none
  task_get resume (suc fuel) h fs =
      let rest = task_get resume fuel h (resume h fs) in
      if h == 0
      then some (err no_handle, fs)
      else (if (fs h).done then some ((fs h).result, fs) else rest)

  unfoldable pub task_request_stop : ℕ → Frames A → Frames A
  unfolding promise_request_stop
  task_request_stop h fs = if h == 0 then fs else update fs h (promise_request_stop (fs h))

  unfoldable pub task_stop_token : ℕ → Frames A → Option Bool × Frames A
  unfolding promise_stop_token
  task_stop_token h fs =
      let (token, f) = promise_stop_token (fs h) in
      if h == 0 then (none, fs) else (token, update fs h f)

  unfoldable pub task_set_cancellation : Option ℕ → ℕ → Frames A → Frames A
  task_set_cancellation token h fs =
      if h == 0 then fs else update fs h (record (fs h) { cancel_token = token })

  -- JoinHandle, which does not own its frame.
  unfoldable pub join_done : ℕ → Frames A → Bool
  join_done h fs = h == 0 || (fs h).done

  unfoldable pub join_suspend : ℕ → ℕ → Frames A → Bool × Frames A
  join_suspend continuation h fs =
      if h == 0 || (fs h).done
      then (false, fs)
      else (true, update fs h (record (fs h) { continuation = continuation }))

  unfoldable pub join_resume : ℕ → Frames A → Result A
  join_resume h fs = if h == 0 then err no_task else (fs h).result

  unfoldable pub join_request_stop : ℕ → Frames A → Frames A
  unfolding promise_request_stop
  join_request_stop h fs = if h == 0 then fs else update fs h (promise_request_stop (fs h))
