-- ===== src/Async/Task/Chains.antt =====
-- Coroutines of src/async/task.hpp that await one another: what is handed over, and the way of a token.
use rain.Base.{ℕ, ◌≡◌, ◌≢◌, refl, true, false, List, [], ◌∷◌, Option, some, arith, ◌==◌, update}
use rain.Core.{ok}
use rain.Async.Task.{
  Frames, await_transform, return_value, final_transfer, task_suspend, task_resume, join_suspend,
  join_resume, join_request_stop, promise_request_stop, ensure_stop_state,
}

-- The token of the last of a chain of frames, each with its own token, of which each awaits the next.
abbrev pub token_at_leaf : Option ℕ → List (Option ℕ) → Option ℕ
unfolding await_transform
token_at_leaf token [] = token
token_at_leaf token (own ∷ rest) = token_at_leaf (await_transform token own) rest

-- A token that the root of a chain has comes to its leaf, whatever tokens the frames had before.
pub token_reaches_leaf :
    (token : ℕ) (chain : List (Option ℕ)) → token_at_leaf (some token) chain ≡ some token
unfolding await_transform
token_reaches_leaf token [] = refl
token_reaches_leaf token (own ∷ rest) = token_reaches_leaf token rest

module _ {A : Type 0} where
  -- A task that ends with a value goes on with the coroutine that awaits it, which gets that value; it is
  -- the same through a JoinHandle.
  pub awaited_value :
      (h c : ℕ) (a : A) (fs : Frames A)
      → h ≢ 0
      → c ≢ 0
      → (fs h).done ≡ false
      → let ends : Frames A → Frames A = λ gs. update gs h (return_value a (gs h)) in
        let awaited = ends (task_suspend c h fs).1 in
        let joined = ends (join_suspend c h fs).1 in
        (final_transfer (awaited h) ≡ some c)
        × (task_resume h awaited ≡ some a)
        × (final_transfer (joined h) ≡ some c)
        × (join_resume h joined ≡ ok a)
  unfolding return_value final_transfer task_suspend task_resume join_suspend join_resume
  awaited_value h c a fs nh nc running =
      let same : (h == h) ≡ true = ground arith in
      let some_task : (h == 0) ≡ false = ground (arith, nh) in
      let somebody : (c == 0) ≡ false = ground (arith, nc) in
      simp (same, some_task, somebody, running) (refl, rw (task_resume, same) refl, refl, refl)

  -- A request to stop through a JoinHandle does not touch the token that the frame hands on.
  pub join_request_stop-token :
      (h j : ℕ) (fs : Frames A) → (join_request_stop h fs j).cancel_token ≡ (fs j).cancel_token
  unfolding join_request_stop promise_request_stop ensure_stop_state
  join_request_stop-token h j fs = ground arith
