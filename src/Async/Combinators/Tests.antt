-- ===== src/Async/Combinators/Tests.antt =====
-- Tests of the combinators, and the properties at concrete inputs.
use rain.Base.{
  ℕ, ◌+◌, ◌≡◌, refl, ◌⊎◌, true, [], ◌∷◌, ◌++◌, some, arith, ◌<◌, ◌≤◌, if◌then◌else◌, ◌&&◌, ltb,
  ◌==◌, List, is_some, count,
}
use rain.Core.{Result, ok, err, SystemError}
use rain.Async.Combinators.{range, cancelled_error, timed_out_error}
use rain.Async.Combinators.Pipes.{TaskOf, and_then, map_task}
use rain.Async.Combinators.Retry.{retry_task, retry_loop, retry_lem}
use rain.Async.Combinators.WhenAll.{when_all_await, racers_end, when_all_start, when_all_lem}
use rain.Async.Combinators.WhenAny.{
  get_or, any_end, when_any_await, when_any_start, when_any, any_winner, left_behind,
  when_any_resume, when_any_racer, when_any_lem,
}
use rain.Async.Combinators.Timeout.{
  RacerEnd, task_ends, timer_ends, stops, answer, racer_end, timeout_await, timeout_end,
  timeout_start, timeout_resume, timeout_timer_racer, timeout_task_racer, timeout_winner, timeout,
  timeout_lem,
}

-- A task that fails until the world has counted two calls, and a sleep that counts nothing.
abbrev third_time : TaskOf ℕ ℕ
third_time n = (if ltb n 2 then err cancelled_error else ok 7, n + 1)

abbrev rest : ℕ → TaskOf ℕ (Unit {0})
rest delay n = (ok tt, n)

three_attempts : retry_task third_time rest true 3 5 0 ≡ (ok 7, 3)
unfolding retry_task retry_loop
three_attempts = refl

two_attempts : retry_task third_time rest true 2 5 0 ≡ (err cancelled_error, 2)
unfolding retry_task retry_loop
two_attempts = refl

retry_lem_example :
    let (r, v) = retry_task third_time rest true 3 5 0 in
    ((a : ℕ) × (r ≡ ok a) × (0 < v) × (v ≤ 0 + 3))
    ⊎ ((e : SystemError) × (u : ℕ) × (r ≡ err e) × ((third_time u).0 ≡ err e) × (v ≡ 0 + 3))
retry_lem_example =
    retry_lem third_time rest true (λ n. n) (λ n. refl) (λ delay n. refl) 3 5 0 (omega arith)

-- `x` doubled if it is small, else an error.
abbrev double : ℕ → TaskOf ℕ ℕ
double x n = (if ltb x 10 then ok (x + x) else err timed_out_error, n + 1)

-- The third call succeeds with 7; 8 is doubled, but 14 is too large to be doubled again.
pipeline : and_then double (map_task (λ a. a + 1) third_time) 2 ≡ (ok 16, 4)
unfolding and_then map_task
pipeline = refl

broken_pipeline : and_then double (and_then double third_time) 2 ≡ (err timed_out_error, 5)
unfolding and_then
broken_pipeline = refl

-- Two tasks, of which task 1 ends before the coroutine 9 waits.
abbrev two_outcomes : ℕ → Result ℕ
two_outcomes i = if i == 0 then err timed_out_error else ok i

both_end : (i : ℕ) → i < 2 → 0 < count i (1 ∷ []) + count i (0 ∷ [])
both_end i h = ground (arith, h)

when_all_lem_example :
    let (suspended, s) = when_all_await 9 (racers_end two_outcomes (1 ∷ []) (when_all_start 2)) in
    let final = racers_end two_outcomes (0 ∷ []) s in
    ((i : ℕ) → i < 2 → final.results i ≡ two_outcomes i)
    × (final.remaining ≡ 0)
    × (final.notified ≡ (if suspended then 9 ∷ [] else []))
when_all_lem_example = when_all_lem two_outcomes (1 ∷ []) (0 ∷ []) 9 both_end

-- A failure before the coroutine 9 waits, then a success, then another one that comes too late.
abbrev one_failure : List (Result ℕ)
one_failure = err cancelled_error ∷ []

abbrev two_successes : List (Result ℕ)
two_successes = ok 4 ∷ ok 5 ∷ []

when_any_lem_example :
    let (suspended, s) = when_any_await 9 (any_end one_failure (when_any_start 3)) in
    let final = any_end two_successes s in
    let winner = any_winner 3 (one_failure ++ two_successes) in
    (final.resolved ≡ is_some winner)
    × (final.result ≡ get_or (err cancelled_error) winner)
    × (final.stop_requests ≡ (if is_some winner then range 3 else []))
    × (final.notified ≡ (if is_some winner && suspended then 9 ∷ [] else []))
    × (when_any (λ r. r) 9 3 one_failure two_successes ≡ left_behind (λ r. r) winner)
when_any_lem_example = when_any_lem (λ r. r) 3 9 one_failure two_successes (omega arith)

-- A list that is moved is left empty, and so `when_any` loses the list of the winner.
abbrev moved_list : Result (List ℕ) → Result (List ℕ)
moved_list (ok xs) = ok []
moved_list (err e) = err e

lost_list : when_any moved_list 9 2 [] (ok (1 ∷ 2 ∷ []) ∷ []) ≡ some (ok [])
unfolding when_any when_any_resume when_any_racer when_any_await when_any_start any_end
lost_list = refl

-- The sentinel ends while the coroutine 9 waits, and the task after it.
abbrev late_task : List (RacerEnd (List ℕ))
late_task = timer_ends (ok tt) ∷ task_ends (ok (1 ∷ [])) ∷ []

timeout_lem_example :
    let (suspended, s) = timeout_await 9 (timeout_end [] timeout_start) in
    let final = timeout_end late_task s in
    let winner = timeout_winner late_task in
    (final.resolved ≡ is_some winner)
    × (final.stop_requests ≡ stops winner)
    × (final.notified ≡ (if is_some winner && suspended then 9 ∷ [] else []))
    × (timeout moved_list 9 [] late_task ≡ answer moved_list winner)
timeout_lem_example = timeout_lem moved_list 9 [] late_task

late_task_loses : timeout moved_list 9 [] late_task ≡ some (err timed_out_error)
unfolding timeout timeout_await timeout_end timeout_start timeout_resume racer_end
    timeout_timer_racer timeout_task_racer
late_task_loses = refl

early_task_wins :
    timeout {A = ℕ} (λ r. r) 9 (task_ends (ok 3) ∷ []) (timer_ends (ok tt) ∷ []) ≡ some (ok 3)
unfolding timeout timeout_await timeout_end timeout_start timeout_resume racer_end
    timeout_timer_racer timeout_task_racer
early_task_wins = refl
