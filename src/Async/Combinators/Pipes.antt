-- ===== src/Async/Combinators/Pipes.antt =====
-- The pipe operators of src/async/combinators.hpp, and `with_deadline_check`.
use rain.Base.{arith, ℕ, ◌+◌, ◌≡◌, inl, inr, ltb, if◌then◌else◌, fun_ext}
use rain.Core.{SystemError, Result, ok, err, Result-cases}
use rain.Async.Combinators.{timed_out_error}

-- A task with a `Result`, run to its end.
abbrev pub TaskOf {ℓ κ} : Type ℓ → Type κ → Type (ℓ ⊔ κ)
TaskOf W A = W → Result A × W

module _ {W : Type 0} {A B : Type 0} where
  unfoldable pub and_then : (A → TaskOf W B) → TaskOf W A → TaskOf W B
  and_then f task w = let (r, w') = task w in elim r [ err e ↦ (err e, w') | ok a ↦ f a w' ]

  unfoldable pub map_task : (A → B) → TaskOf W A → TaskOf W B
  map_task f task w = let (r, w') = task w in elim r [ err e ↦ (err e, w') | ok a ↦ (ok (f a), w') ]

module _ {W : Type 0} {A : Type 0} where
  unfoldable pub map_err : (SystemError → SystemError) → TaskOf W A → TaskOf W A
  map_err f task w = let (r, w') = task w in elim r [ err e ↦ (err (f e), w') | ok a ↦ (ok a, w') ]

  unfoldable pub or_else : (SystemError → TaskOf W A) → TaskOf W A → TaskOf W A
  or_else f task w = let (r, w') = task w in elim r [ err e ↦ f e w' | ok a ↦ (ok a, w') ]

  -- The function of `inspect` and of `inspect_err` is called for its effect on the world.
  unfoldable pub inspect : (A → W → W) → TaskOf W A → TaskOf W A
  inspect f task w = let (r, w') = task w in elim r [ err e ↦ (err e, w') | ok a ↦ (ok a, f a w') ]

  unfoldable pub inspect_err : (SystemError → W → W) → TaskOf W A → TaskOf W A
  inspect_err f task w =
      let (r, w') = task w in elim r [ err e ↦ (err e, f e w') | ok a ↦ (ok a, w') ]

  -- `clock` is `Clock::now`.
  unfoldable pub with_deadline_check : (W → ℕ × W) → TaskOf W A → ℕ → TaskOf W A
  with_deadline_check clock task timeout w =
      let (start, w1) = clock w in
      let (r, w2) = task w1 in
      let (now, w3) = clock w2 in
      if ltb (start + timeout) now then (err timed_out_error, w3) else (r, w3)

module _ {W A B C : Type 0} where
  and_then-assoc_at :
      (task : TaskOf W A) (f : A → TaskOf W B) (g : B → TaskOf W C) (w : W)
      → and_then g (and_then f task) w ≡ and_then (λ a. and_then g (f a)) task w
  unfolding and_then
  and_then-assoc_at task f g w = elim (Result-cases (task w).0) [
    | inl (a, e) ↦ ground (arith, e)
    | inr (x, e) ↦ ground (arith, e)
  ]

  map-and_then_at :
      (task : TaskOf W A) (f : A → B) (g : B → TaskOf W C) (w : W)
      → and_then g (map_task f task) w ≡ and_then (λ a. g (f a)) task w
  unfolding and_then map_task
  map-and_then_at task f g w = elim (Result-cases (task w).0) [
    | inl (a, e) ↦ ground (arith, e)
    | inr (x, e) ↦ ground (arith, e)
  ]

  -- A pipeline may be grouped as one likes: two `and_then` in a row are one, and a `map` before an
  -- `and_then` is a part of it, with the same result and the same effects.
  pub pipe_fusion :
      (task : TaskOf W A) (f : A → TaskOf W B) (f' : A → B) (g : B → TaskOf W C)
      → (and_then g (and_then f task) ≡ and_then (λ a. and_then g (f a)) task)
        × (and_then g (map_task f' task) ≡ and_then (λ a. g (f' a)) task)
  pipe_fusion task f f' g =
      (fun_ext (and_then-assoc_at task f g), fun_ext (map-and_then_at task f' g))
