-- ===== src/Async/Combinators/Retry.antt =====
-- `retry` of src/async/combinators.hpp.
use rain.Base.{
  ℕ, zero, suc, ◌+◌, ◌≤◌, ◌<◌, ◌≡◌, refl, ◌⊎◌, inl, inr, Bool, true, ◌&&◌, arith, ltb, leb,
  if◌then◌else◌, Bool-cases,
}
use rain.Core.{SystemError, ok, err, Result-cases}
use rain.Async.Combinators.{cancelled_error}
use rain.Async.Combinators.Pipes.{TaskOf}

module _ {W A : Type 0} (factory : TaskOf W A) (sleep : ℕ → TaskOf W (Unit {0}))
    (has_timer : Bool) where
  -- The loop from `attempt` on; the fuel is the number of attempts left.
  unfoldable pub retry_loop : ℕ → ℕ → ℕ → ℕ → TaskOf W A
  retry_loop zero attempt max_attempts delay w = (err cancelled_error, w)
  retry_loop (suc fuel) attempt max_attempts delay w =
      let (r, w') = factory w in
      let rested = if ltb 0 delay && has_timer then (sleep delay w').1 else w' in
      let rest = retry_loop fuel (attempt + 1) max_attempts delay rested in
      if ltb attempt max_attempts
      then elim r [
        | ok a ↦ (ok a, w')
        | err e ↦ if leb max_attempts (attempt + 1) then (err e, w') else rest
      ]
      else (err cancelled_error, w)

  unfoldable pub retry_task : ℕ → ℕ → TaskOf W A
  retry_task max_attempts delay w = retry_loop max_attempts 0 max_attempts delay w

  module _ (calls : W → ℕ) (counted : (w : W) → calls (factory w).1 ≡ calls w + 1)
      (not_counted : (delay : ℕ) (w : W) → calls (sleep delay w).1 ≡ calls w) where
    retry_loop_lem :
        (fuel attempt max_attempts delay : ℕ) (w : W)
        → attempt + fuel ≡ max_attempts
        → 0 < fuel
        → let (r, v) = retry_loop fuel attempt max_attempts delay w in
          ((a : A) × (r ≡ ok a) × (calls w < calls v) × (calls v ≤ calls w + fuel))
          ⊎ ((e : SystemError) × (u : W) × (r ≡ err e)
              × ((factory u).0 ≡ err e)
              × (calls v ≡ calls w + fuel))
    unfolding retry_loop
    retry_loop_lem zero attempt max_attempts delay w h k = absurd (omega (arith, k))
    retry_loop_lem (suc fuel) attempt max_attempts delay w h k =
        let more : ltb attempt max_attempts ≡ true = ground (arith, h) in
        let w' = (factory w).1 in
        let rested = if ltb 0 delay && has_timer then (sleep delay w').1 else w' in
        let same : calls rested ≡ calls w' = ground (arith, not_counted delay w') in
        elim (Result-cases (factory w).0) [
          | inl (a, e) ↦
              rw (more, e) (inl (a, refl, omega (arith, counted w), omega (arith, counted w)))
          | inr (x, e) ↦ elim (Bool-cases (leb max_attempts (attempt + 1))) [
            | inl last ↦
                let one : fuel ≡ 0 = ground (arith, h, last) in
                rw (more, e, last) (inr (x, w, refl, e, omega (arith, counted w, one)))
            | inr again ↦
                let deeper =
                  retry_loop_lem fuel (attempt + 1) max_attempts delay rested (omega (arith, h))
                    (ground (arith, h, again)) in
                rw (more, e, again)
                  (elim deeper [
                    | inl (a, good, lo, hi) ↦ inl (
                      a,
                      good,
                      omega (arith, lo, same, counted w),
                      omega (arith, hi, same, counted w),
                    )
                    | inr (y, u, bad, from, n) ↦
                        inr (y, u, bad, from, omega (arith, n, same, counted w))
                  ])
          ]
        ]

    -- `retry` with at least one attempt either succeeds, after at most `max_attempts` calls of the factory,
    -- or has called it exactly `max_attempts` times and answers an error that the factory gave.
    pub retry_lem :
        (max_attempts delay : ℕ) (w : W)
        → 0 < max_attempts
        → let (r, v) = retry_task max_attempts delay w in
          ((a : A) × (r ≡ ok a) × (calls w < calls v) × (calls v ≤ calls w + max_attempts))
          ⊎ ((e : SystemError) × (u : W) × (r ≡ err e)
              × ((factory u).0 ≡ err e)
              × (calls v ≡ calls w + max_attempts))
    unfolding retry_task
    retry_lem max_attempts delay w h =
        retry_loop_lem max_attempts 0 max_attempts delay w (omega arith) h
