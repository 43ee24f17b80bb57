-- ===== src/Async/Combinators/WhenAll.antt =====
-- `when_all` of src/async/combinators.hpp: racers that write into a shared state and wake the waiter.
use rain.Base.{
  count-cases, ℕ, ◌+◌, ◌-◌, ◌<◌, ◌≡◌, refl, ◌∙◌, ap, ◌⊎◌, inl, inr, Bool, true, false, not, List,
  [], ◌∷◌, ◌++◌, Option, none, some, arith, ◌==◌, if◌then◌else◌, update, length, count, Bool-cases,
}
use rain.Core.{Result, err}
use rain.Async.Combinators.{cancelled_error}

-- WhenAllState, with the ready queue of the event loop as far as it is notified.
pub record WhenAllState (A : Type 0) : Type 0 where
  pub remaining : ℕ
  pub results : ℕ → Result A
  pub waiter : Option ℕ
  pub notified : List ℕ

abbrev pub wake_waiter : Bool → Option ℕ → List ℕ → List ℕ
wake_waiter false w ready = ready
wake_waiter true none ready = ready
wake_waiter true (some h) ready = ready ++ (h ∷ [])

module _ {A : Type 0} where
  -- The state that `when_all` makes for `n` tasks.
  unfoldable pub when_all_start : ℕ → WhenAllState A
  when_all_start n = record {
    remaining = n;
    results = λ i. err cancelled_error;
    waiter = none;
    notified = [];
  }

  -- `when_all_racer` once its task has ended with `r`, on the event loop's thread.
  unfoldable pub when_all_racer : ℕ → Result A → WhenAllState A → WhenAllState A
  when_all_racer idx r s =
      let remaining = s.remaining - 1 in
      record s {
        results = update s.results idx r;
        remaining = remaining;
        notified = wake_waiter (remaining == 0) s.waiter s.notified;
      }

  unfoldable pub when_all_ready : WhenAllState A → Bool
  when_all_ready s = s.remaining == 0

  -- `await_suspend`: whether the coroutine stays suspended.
  unfoldable pub when_all_suspend : ℕ → WhenAllState A → Bool × WhenAllState A
  when_all_suspend h s = (not (s.remaining == 0), record s { waiter = some h })

  -- `co_await` of the WhenAllAwaiter, by the coroutine `h`.
  unfoldable pub when_all_await : ℕ → WhenAllState A → Bool × WhenAllState A
  unfolding when_all_ready when_all_suspend
  when_all_await h s = if when_all_ready s then (false, s) else when_all_suspend h s

  -- Racers that end in this order, each with its outcome.
  unfoldable pub racers_end : (ℕ → Result A) → List ℕ → WhenAllState A → WhenAllState A
  unfolding when_all_racer
  racers_end outcome [] s = s
  racers_end outcome (i ∷ is) s = racers_end outcome is (when_all_racer i (outcome i) s)

  racers_end-remaining :
      (outcome : ℕ → Result A) (is : List ℕ) (s : WhenAllState A)
      → (racers_end outcome is s).remaining ≡ s.remaining - length is
  unfolding racers_end
  racers_end-remaining outcome [] s = omega arith
  racers_end-remaining outcome (i ∷ is) s =
      omega (arith, racers_end-remaining outcome is (when_all_racer i (outcome i) s))

  racers_end-waiter :
      (outcome : ℕ → Result A) (is : List ℕ) (s : WhenAllState A)
      → (racers_end outcome is s).waiter ≡ s.waiter
  unfolding racers_end
  racers_end-waiter outcome [] s = refl
  racers_end-waiter outcome (i ∷ is) s =
      racers_end-waiter outcome is (when_all_racer i (outcome i) s)

  -- Every index that ended has its outcome, and keeps it.
  racers_end-results :
      (outcome : ℕ → Result A) (is : List ℕ) (s : WhenAllState A) (i : ℕ)
      → (0 < count i is) ⊎ (s.results i ≡ outcome i)
      → (racers_end outcome is s).results i ≡ outcome i
  unfolding racers_end
  racers_end-results outcome [] s i (inl h) = absurd (omega (arith, h))
  racers_end-results outcome [] s i (inr h) = h
  racers_end-results outcome (j ∷ js) s i h =
      racers_end-results outcome js (when_all_racer j (outcome j) s) i (elim (Bool-cases (j == i)) [
        | inl e ↦ inr (ground (arith, e))
        | inr ne ↦ elim h [
          | inl c ↦ inl (ground (arith, c, ne))
          | inr k ↦ inr (ground (arith, k, ne))
        ]
      ])

  -- Nobody is notified while nobody waits; a waiter is notified by the last racer alone.
  racers_end-quiet :
      (outcome : ℕ → Result A) (is : List ℕ) (s : WhenAllState A)
      → s.waiter ≡ none
      → (racers_end outcome is s).notified ≡ s.notified
  unfolding racers_end
  racers_end-quiet outcome [] s h = refl
  racers_end-quiet outcome (i ∷ is) s h =
      racers_end-quiet outcome is (when_all_racer i (outcome i) s) h ∙ ground (arith, h)

  racers_end-wakes :
      (outcome : ℕ → Result A) (is : List ℕ) (s : WhenAllState A) (h : ℕ)
      → s.waiter ≡ some h
      → s.remaining ≡ length is
      → 0 < length is
      → (racers_end outcome is s).notified ≡ s.notified ++ (h ∷ [])
  unfolding racers_end
  racers_end-wakes outcome [] s h w r k = absurd (omega (arith, k))
  racers_end-wakes outcome (i ∷ []) s h w r k = ground (arith, w, r)
  racers_end-wakes outcome (i ∷ j ∷ is) s h w r k =
      racers_end-wakes outcome (j ∷ is) (when_all_racer i (outcome i) s) h w (omega (arith, r))
        (omega arith)
      ∙ ground (arith, r)

  -- `when_all`, in whatever order the racers end and whenever the coroutine `h` comes to wait: when all
  -- have ended, each result is its task's outcome, and `h` is notified once if it was suspended, and not
  -- at all if it was not.
  pub when_all_lem :
      (outcome : ℕ → Result A) (early late : List ℕ) (h : ℕ)
      → ((i : ℕ) → i < length early + length late → 0 < count i early + count i late)
      → let (suspended, s) =
          when_all_await h
            (racers_end outcome early (when_all_start (length early + length late))) in
        let final = racers_end outcome late s in
        ((i : ℕ) → i < length early + length late → final.results i ≡ outcome i)
        × (final.remaining ≡ 0)
        × (final.notified ≡ (if suspended then h ∷ [] else []))
  unfolding when_all_await when_all_start
  when_all_lem outcome early late h all =
      let s0 : WhenAllState A = when_all_start (length early + length late) in
      let s1 = racers_end outcome early s0 in
      let left : s1.remaining ≡ length late =
        omega (arith, racers_end-remaining outcome early s0) in
      let quiet : s1.notified ≡ [] = racers_end-quiet outcome early s0 refl in
      let no_waiter : s1.waiter ≡ none = racers_end-waiter outcome early s0 in
      let s2 : WhenAllState A = record s1 { waiter = some h } in
      elim (Bool-cases (s1.remaining == 0)) [
        | inl over ↦
            rw (when_all_await, over)
              (
                λ i k. racers_end-results outcome late s1 i (elim (count-cases i early) [
                  | inl c ↦ inr (racers_end-results outcome early s0 i (inl c))
                  | inr c ↦ inl (omega (arith, c, all i k))
                ]),
                omega (arith, racers_end-remaining outcome late s1, left),
                racers_end-quiet outcome late s1 no_waiter ∙ quiet,
              )
        | inr more ↦
            rw (when_all_await, more)
              (
                λ i k. racers_end-results outcome late s2 i (elim (count-cases i early) [
                  | inl c ↦ inr (racers_end-results outcome early s0 i (inl c))
                  | inr c ↦ inl (omega (arith, c, all i k))
                ]),
                omega (arith, racers_end-remaining outcome late s2, left),
                racers_end-wakes outcome late s2 h refl left (ground (arith, more, left))
                    ∙ ap (λ q. q ++ (h ∷ [])) quiet,
              )
      ]
