-- ===== src/Async/Combinators/Timeout.antt =====
-- `timeout` of src/async/combinators.hpp: a task races a sentinel that sleeps; whoever ends first wins and
-- cancels the other.
use rain.Base.{
  ℕ, ◌≡◌, refl, inl, inr, Bool, true, false, not, ◌&&◌, List, [], ◌∷◌, ◌++◌, Option, none, some,
  is_some, arith, if◌then◌else◌, Option-cases, Bool-cases,
}
use rain.Core.{Result, ok, err}
use rain.Async.Combinators.{cancelled_error, timed_out_error}
use rain.Async.Combinators.WhenAll.{wake_waiter}

-- The two stop sources, and how a racer ends: the task with its result, the sentinel with that of its sleep.
pub data Source : Type 0 where
  task_src timer_src : Source

pub data RacerEnd (A : Type 0) : Type 0 where
  task_ends : Result A → RacerEnd A
  timer_ends : Result (Unit {0}) → RacerEnd A

-- TimeoutState, with the stop requests made and the coroutines notified.
pub record TimeoutState (A : Type 0) : Type 0 where
  pub resolved : Bool
  pub result : Result A
  pub waiter : Option ℕ
  pub stop_requests : List Source
  pub notified : List ℕ

module _ {A : Type 0} where
  unfoldable pub timeout_start : TimeoutState A
  timeout_start = record {
    resolved = false;
    result = err cancelled_error;
    waiter = none;
    stop_requests = [];
    notified = [];
  }

  -- `timeout_task_racer` once its task has ended.
  unfoldable pub timeout_task_racer : Result A → TimeoutState A → TimeoutState A
  timeout_task_racer r s =
      if not s.resolved
      then record s {
        resolved = true;
        result = r;
        stop_requests = s.stop_requests ++ (timer_src ∷ []);
        notified = wake_waiter true s.waiter s.notified;
      }
      else s

  -- `timeout_timer_racer` once its sleep has ended.
  unfoldable pub timeout_timer_racer : Result (Unit {0}) → TimeoutState A → TimeoutState A
  timeout_timer_racer (err e) s = s
  timeout_timer_racer (ok u) s =
      if not s.resolved
      then record s {
        resolved = true;
        result = err timed_out_error;
        stop_requests = s.stop_requests ++ (task_src ∷ []);
        notified = wake_waiter true s.waiter s.notified;
      }
      else s

  -- `co_await` of the TimeoutAwaiter: `await_ready`, then `await_suspend`; and `await_resume`.
  unfoldable pub timeout_await : ℕ → TimeoutState A → Bool × TimeoutState A
  timeout_await h s =
      if s.resolved then (false, s) else (not s.resolved, record s { waiter = some h })

  unfoldable pub timeout_resume : (Result A → Result A) → TimeoutState A → Result A × TimeoutState A
  timeout_resume moved s = (s.result, record s { result = moved s.result })

  unfoldable pub racer_end : RacerEnd A → TimeoutState A → TimeoutState A
  racer_end (task_ends r) s = timeout_task_racer r s
  racer_end (timer_ends t) s = timeout_timer_racer t s

  -- Racers that end in this order.
  unfoldable pub timeout_end : List (RacerEnd A) → TimeoutState A → TimeoutState A
  timeout_end [] s = s
  timeout_end (e ∷ es) s = timeout_end es (racer_end e s)

  -- `timeout` in the coroutine `h`, as `when_any` is read: `none` while it is suspended.
  unfoldable pub timeout :
      (Result A → Result A) → ℕ → List (RacerEnd A) → List (RacerEnd A) → Option (Result A)
  timeout moved h early late =
      let s = timeout_end late (timeout_await h (timeout_end early timeout_start)).1 in
      if s.resolved then some (timeout_resume moved s).1.result else none

  -- The result and the source to stop when this order decides the race: the task with its result, or the
  -- sentinel when it has slept to the end.
  unfoldable pub timeout_winner : List (RacerEnd A) → Option (Result A × Source)
  timeout_winner [] = none
  timeout_winner (task_ends r ∷ es) = some (r, timer_src)
  timeout_winner (timer_ends (ok u) ∷ es) = some (err timed_out_error, task_src)
  timeout_winner (timer_ends (err e) ∷ es) = timeout_winner es

  abbrev decided : Option (Result A × Source) → TimeoutState A → TimeoutState A
  decided none s = s
  decided (some (r, src)) s = record {
    resolved = true;
    result = r;
    waiter = s.waiter;
    stop_requests = s.stop_requests ++ (src ∷ []);
    notified = wake_waiter true s.waiter s.notified;
  }

  abbrev pub stops : Option (Result A × Source) → List Source
  stops none = []
  stops (some (r, src)) = src ∷ []

  abbrev pub answer : (Result A → Result A) → Option (Result A × Source) → Option (Result A)
  answer moved none = none
  answer moved (some (r, src)) = some (moved r)

  timeout_end-resolved :
      (es : List (RacerEnd A)) (s : TimeoutState A) → s.resolved ≡ true → timeout_end es s ≡ s
  unfolding timeout_end racer_end timeout_task_racer timeout_timer_racer
  timeout_end-resolved [] s h = refl
  timeout_end-resolved (task_ends r ∷ es) s h =
      rw h (timeout_end-resolved es (record s { resolved = true }) refl)
  timeout_end-resolved (timer_ends (ok u) ∷ es) s h =
      rw h (timeout_end-resolved es (record s { resolved = true }) refl)
  timeout_end-resolved (timer_ends (err e) ∷ es) s h = timeout_end-resolved es s h

  timeout_end-open :
      (es : List (RacerEnd A)) (s : TimeoutState A)
      → s.resolved ≡ false
      → timeout_end es s ≡ decided (timeout_winner es) s
  unfolding timeout_end racer_end timeout_task_racer timeout_timer_racer timeout_winner
  timeout_end-open [] s h = refl
  timeout_end-open (task_ends r ∷ es) s h =
      rw h (timeout_end-resolved es (decided (some (r, timer_src)) s) refl)
  timeout_end-open (timer_ends (ok u) ∷ es) s h =
      rw h (timeout_end-resolved es (decided (some (err timed_out_error, task_src)) s) refl)
  timeout_end-open (timer_ends (err e) ∷ es) s h = timeout_end-open es s h

  timeout_winner-append :
      (es fs : List (RacerEnd A))
      → (timeout_winner es ≡ none → timeout_winner (es ++ fs) ≡ timeout_winner fs)
        × ((w : Result A × Source)
            → timeout_winner es ≡ some w
            → timeout_winner (es ++ fs) ≡ some w)
  unfolding timeout_winner
  timeout_winner-append [] fs = (λ _. refl, λ w e. absurd (ground (arith, e)))
  timeout_winner-append (task_ends r ∷ es) fs = (λ e. absurd (ground (arith, e)), λ w e. e)
  timeout_winner-append (timer_ends (ok u) ∷ es) fs = (λ e. absurd (ground (arith, e)), λ w e. e)
  timeout_winner-append (timer_ends (err e) ∷ es) fs = timeout_winner-append es fs

  -- The whole race comes to its winner, whenever `h` comes to wait.
  timeout_end-winner :
      (h : ℕ) (early late : List (RacerEnd A))
      → let (suspended, s) = timeout_await h (timeout_end early timeout_start) in
        timeout_end late s
        ≡ decided
            (timeout_winner (early ++ late))
            (record timeout_start { waiter = if suspended then some h else none })
  unfolding timeout_await timeout_start
  timeout_end-winner h early late =
      let first = timeout_end-open early timeout_start refl in
      let joined = timeout_winner-append early late in
      elim (Option-cases (timeout_winner early)) [
        | inl e ↦
            let goes = timeout_end-open late (record timeout_start { waiter = some h }) refl in
            let w = joined.0 e in rw (first, e, w) goes
        | inr (won, e) ↦
            let goes = timeout_end-resolved late (decided (some won) timeout_start) refl in
            let w = joined.1 won e in rw (first, e, w) goes
      ]

  -- `timeout`, in whatever order the racers end and whenever the coroutine `h` comes to wait: the race is
  -- decided exactly when it has a winner, the task or else the sentinel that slept to the end. Then the
  -- loser's source alone was asked to stop, `h` is notified once if it was suspended and never if it was
  -- not, and `timeout` goes on with what the move constructor leaves behind of the winner's result.
  pub timeout_lem :
      (moved : Result A → Result A) (h : ℕ) (early late : List (RacerEnd A))
      → let (suspended, s) = timeout_await h (timeout_end early timeout_start) in
        let final = timeout_end late s in
        let winner = timeout_winner (early ++ late) in
        (final.resolved ≡ is_some winner)
        × (final.stop_requests ≡ stops winner)
        × (final.notified ≡ (if is_some winner && suspended then h ∷ [] else []))
        × (timeout moved h early late ≡ answer moved winner)
  unfolding timeout timeout_start timeout_resume
  timeout_lem moved h early late =
      let e = timeout_end-winner h early late in
      elim (Option-cases (timeout_winner (early ++ late))) [
        | inl open_yet ↦ rw (e, open_yet) (refl, refl, refl, refl)
        | inr (won, w) ↦ elim (Bool-cases (timeout_await h (timeout_end early timeout_start)).0) [
          | inl sus ↦ rw (e, w, sus) (refl, refl, refl, refl)
          | inr not_sus ↦ rw (e, w, not_sus) (refl, refl, refl, refl)
        ]
      ]
