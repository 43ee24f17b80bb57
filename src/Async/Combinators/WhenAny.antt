-- ===== src/Async/Combinators/WhenAny.antt =====
-- `when_any` of src/async/combinators.hpp: the first success wins, the other racers are cancelled.
use rain.Base.{
  ◌<◌, ℕ, suc, ◌-◌, ◌≡◌, refl, ◌∙◌, inl, inr, Bool, true, false, not, ◌&&◌, ◌||◌, List, [], ◌∷◌,
  ◌++◌, Option, none, some, is_some, arith, Option-cases, ◌==◌, if◌then◌else◌, length, Bool-cases,
}
use rain.Core.{Result, ok, err, has_value}
use rain.Async.Combinators.{cancelled_error, range}
use rain.Async.Combinators.WhenAll.{wake_waiter}

-- WhenAnyState. `sources` are the stop sources by number, `stop_requests` those that were asked to stop,
-- and `notified` the ready queue of the event loop as far as the racers fill it.
pub record WhenAnyState (A : Type 0) : Type 0 where
  pub resolved : Bool
  pub remaining : ℕ
  pub result : Result A
  pub waiter : Option ℕ
  pub sources : List ℕ
  pub stop_requests : List ℕ
  pub notified : List ℕ

abbrev pub get_or {ℓ} : {A : Type ℓ} → A → Option A → A
get_or a none = a
get_or a (some b) = b

abbrev pub left_behind : {A : Type 0} → (A → A) → Option A → Option A
left_behind moved none = none
left_behind moved (some r) = some (moved r)

module _ {A : Type 0} where
  -- The state that `when_any` makes for `n` tasks, each with a source of its own.
  unfoldable pub when_any_start : ℕ → WhenAnyState A
  when_any_start n = record {
    resolved = false;
    remaining = n;
    result = err cancelled_error;
    waiter = none;
    sources = range n;
    stop_requests = [];
    notified = [];
  }

  -- `when_any_racer` once its task has ended with `r`, on the event loop's thread.
  unfoldable pub when_any_racer : Result A → WhenAnyState A → WhenAnyState A
  when_any_racer r s =
      let remaining = s.remaining - 1 in
      let last = remaining == 0 in
      let counted = record s { remaining = remaining } in
      if not s.resolved && (has_value r || last)
      then record counted {
        resolved = true;
        result = r;
        stop_requests = s.stop_requests ++ s.sources;
        notified = wake_waiter true s.waiter s.notified;
      }
      else counted

  -- `co_await` of the WhenAnyAwaiter: `await_ready`, then `await_suspend`.
  unfoldable pub when_any_await : ℕ → WhenAnyState A → Bool × WhenAnyState A
  when_any_await h s =
      if s.resolved then (false, s) else (not s.resolved, record s { waiter = some h })

  -- `await_resume`, which moves the result out of the state. `moved` is what the type's move constructor
  -- leaves behind.
  unfoldable pub when_any_resume :
      (Result A → Result A) → WhenAnyState A → Result A × WhenAnyState A
  when_any_resume moved s = (s.result, record s { result = moved s.result })

  -- Racers that end with these outcomes, one after the other.
  unfoldable pub any_end : List (Result A) → WhenAnyState A → WhenAnyState A
  any_end [] s = s
  any_end (r ∷ rs) s = any_end rs (when_any_racer r s)

  -- `when_any` of `n` tasks in the coroutine `h`: `early` are the outcomes before it comes to wait, and
  -- `late` those after it. `none` while it is suspended; once it goes on, `await_resume` takes the result
  -- out of the state, and the coroutine answers what the state then holds.
  unfoldable pub when_any :
      (Result A → Result A) → ℕ → ℕ → List (Result A) → List (Result A) → Option (Result A)
  when_any moved h n early late =
      let waiting = when_any_await h (any_end early (when_any_start n)) in
      let s = any_end late waiting.1 in
      if n == 0
      then some (err cancelled_error)
      else (if s.resolved then some (when_any_resume moved s).1.result else none)

  -- The outcome that wins among `n` racers, when these have ended: the first success, or the last error.
  unfoldable pub any_winner : ℕ → List (Result A) → Option (Result A)
  any_winner n [] = none
  any_winner n (ok a ∷ rs) = some (ok a)
  any_winner n (err e ∷ rs) = if n - 1 == 0 then some (err e) else any_winner (n - 1) rs

  -- Once resolved, the state is only counted down.
  any_end-resolved :
      (rs : List (Result A)) (s : WhenAnyState A)
      → s.resolved ≡ true
      → any_end rs s ≡ record s { remaining = s.remaining - length rs }
  unfolding any_end when_any_racer
  any_end-resolved [] s h = let z : s.remaining - 0 ≡ s.remaining = omega arith in rw z refl
  any_end-resolved (r ∷ rs) s h =
      let z : s.remaining - suc (length rs) ≡ s.remaining - 1 - length rs = omega arith in
      rw (when_any_racer, h, z)
        (any_end-resolved rs (record s { resolved = true; remaining = s.remaining - 1 }) refl)

  -- Until then it is as its winner says.
  abbrev settled : Option (Result A) → ℕ → WhenAnyState A → WhenAnyState A
  settled none n s = record s { remaining = n }
  settled (some r) n s = record s {
    resolved = true;
    remaining = n;
    result = r;
    stop_requests = s.stop_requests ++ s.sources;
    notified = wake_waiter true s.waiter s.notified;
  }

  settled_counted :
      (w : Option (Result A)) (n m : ℕ) (s : WhenAnyState A)
      → settled w n (record s { remaining = m }) ≡ settled w n s
  settled_counted none n m s = refl
  settled_counted (some r) n m s = refl

  any_end-open :
      (rs : List (Result A)) (s : WhenAnyState A)
      → s.resolved ≡ false
      → any_end rs s ≡ settled (any_winner s.remaining rs) (s.remaining - length rs) s
  unfolding any_end when_any_racer any_winner
  any_end-open [] s h = let z : s.remaining - 0 ≡ s.remaining = omega arith in rw z refl
  any_end-open (ok a ∷ rs) s h =
      let z : s.remaining - suc (length rs) ≡ s.remaining - 1 - length rs = omega arith in
      rw (when_any_racer, h, z)
        (any_end-resolved rs (settled (some (ok a)) (s.remaining - 1) s) refl)
  any_end-open (err e ∷ rs) s h =
      let z : s.remaining - suc (length rs) ≡ s.remaining - 1 - length rs = omega arith in
      elim (Bool-cases (s.remaining - 1 == 0)) [
        | inl last ↦
            rw (when_any_racer, any_winner, h, last, z)
              (any_end-resolved rs (settled (some (err e)) (s.remaining - 1) s) refl)
        | inr more ↦
            rw (when_any_racer, any_winner, h, more, z)
              (any_end-open rs (record s { resolved = false; remaining = s.remaining - 1 }) refl
                ∙ settled_counted (any_winner (s.remaining - 1) rs) (s.remaining - 1 - length rs)
                    (s.remaining - 1) (record s { resolved = false }))
      ]

  any_end-append :
      (rs ts : List (Result A)) (s : WhenAnyState A)
      → any_end (rs ++ ts) s ≡ any_end ts (any_end rs s)
  unfolding any_end
  any_end-append [] ts s = refl
  any_end-append (r ∷ rs) ts s = any_end-append rs ts (when_any_racer r s)

  any_winner-append :
      (n : ℕ) (rs ts : List (Result A))
      → (any_winner n rs ≡ none → any_winner n (rs ++ ts) ≡ any_winner (n - length rs) ts)
        × ((r : Result A) → any_winner n rs ≡ some r → any_winner n (rs ++ ts) ≡ some r)
  unfolding any_winner
  any_winner-append n [] ts =
      let z : n - 0 ≡ n = omega arith in (λ _. rw z refl, λ r e. absurd (ground (arith, e)))
  any_winner-append n (ok a ∷ rs) ts = (λ e. absurd (ground (arith, e)), λ r e. e)
  any_winner-append n (err x ∷ rs) ts =
      let z : n - suc (length rs) ≡ n - 1 - length rs = omega arith in
      let rest = any_winner-append (n - 1) rs ts in
      elim (Bool-cases (n - 1 == 0)) [
        | inl last ↦ rw last (λ e. absurd (ground (arith, e)), λ r e. e)
        | inr more ↦ rw (more, z) rest
      ]

  -- The state at any moment of the race, `early` having ended before the coroutine `h` came to wait and
  -- `late` after it.
  when_any-settled :
      (n h : ℕ) (early late : List (Result A))
      → let (suspended, s) = when_any_await h (any_end early (when_any_start n)) in
        let final = any_end late s in
        let winner = any_winner n (early ++ late) in
        (final.resolved ≡ is_some winner)
        × (final.result ≡ get_or (err cancelled_error) winner)
        × (final.stop_requests ≡ (if is_some winner then range n else []))
        × (final.notified ≡ (if is_some winner && suspended then h ∷ [] else []))
        × (suspended ≡ not (is_some (any_winner n early)))
  unfolding when_any_await when_any_start
  when_any-settled n h early late =
      let s0 : WhenAnyState A = when_any_start n in
      let first = any_end-open early s0 refl in
      elim (Option-cases (any_winner n early)) [
        | inl e ↦
            let s1 : WhenAnyState A = record s0 { remaining = n - length early } in
            let stays : any_end early s0 ≡ s1 = rw e at first in
            let s2 : WhenAnyState A = record s1 { waiter = some h } in
            let goes : any_end late s2
                ≡ settled (any_winner (n - length early) late) (n - length early - length late) s2 =
              any_end-open late s2 refl in
            let w = (any_winner-append n early late).0 e in
            elim (Option-cases (any_winner (n - length early) late)) [
              | inl none_yet ↦ rw (stays, w, goes, none_yet, e) (refl, refl, refl, refl, refl)
              | inr (r, win) ↦ rw (stays, w, goes, win, e) (refl, refl, refl, refl, refl)
            ]
        | inr (r, e) ↦
            let s1 : WhenAnyState A = settled (some r) (n - length early) s0 in
            let won : any_end early s0 ≡ s1 = rw e at first in
            let w = (any_winner-append n early late).1 r e in
            let goes = any_end-resolved late s1 refl in
            rw (won, w, goes) (refl, refl, refl, refl, rw e refl)
      ]

  -- `when_any` of `n` tasks at any moment of the race, `early` having ended before the coroutine `h` came to
  -- wait and `late` after it, for at least one task. The state is resolved exactly when there is a winner, the
  -- first success or the error of the last of the `n` racers; it then has the winner's result, every source
  -- was asked to stop once, and `h` is notified once if it was suspended, and never if it was not. `h`
  -- then goes on with what the move constructor leaves behind of the winner's result, which is the
  -- result itself only for a type whose move is a copy.
  pub when_any_lem :
      (moved : Result A → Result A) (n h : ℕ) (early late : List (Result A))
      → 0 < n
      → let (suspended, s) = when_any_await h (any_end early (when_any_start n)) in
        let final = any_end late s in
        let winner = any_winner n (early ++ late) in
        (final.resolved ≡ is_some winner)
        × (final.result ≡ get_or (err cancelled_error) winner)
        × (final.stop_requests ≡ (if is_some winner then range n else []))
        × (final.notified ≡ (if is_some winner && suspended then h ∷ [] else []))
        × (when_any moved h n early late ≡ left_behind moved winner)
  unfolding when_any when_any_resume
  when_any_lem moved n h early late positive =
      let some_task : (n == 0) ≡ false = ground (arith, positive) in
      let (resolved, result, stops, notified, _) = when_any-settled n h early late in
      (
        resolved,
        result,
        stops,
        notified,
        elim (Option-cases (any_winner n (early ++ late))) [
          | inl e ↦ rw (some_task, resolved, e) refl
          | inr (r, e) ↦ rw (some_task, resolved, result, e) refl
        ],
      )
