-- ===== src/Runtime/Executor/Ended.antt =====
-- The workers of src/runtime/executor.hpp at their ends, and what `join` answers of them.
use rain.Base.{
  ℕ, zero, suc, ◌+◌, ◌<◌, ◌≡◌, refl, sym, ◌⊎◌, inl, inr, true, List, [], ◌∷◌, some, arith, ◌==◌,
  length, Bool-cases,
}
use rain.Core.{SystemError, Result, ok, err}
use rain.Runtime.Executor.{
  Stage, starting, exited, Executor, join, all_exited, first_fault, is_exited,
}
use rain.Runtime.Executor.Told.{told, told_one, told_count, present, FromWorkers}

abbrev pub failed_one : Stage → ℕ
failed_one (exited (err x)) = 1
failed_one t = 0

pub all_exited-at :
    (n : ℕ) (threads : ℕ → Stage)
    → all_exited n threads ≡ true
    → (i : ℕ) → i < n
    → is_exited (threads i) ≡ true
all_exited-at zero threads h i lt = absurd (omega (arith, lt))
all_exited-at (suc n) threads h i lt = elim (Bool-cases (i == n)) [
  | inl here ↦ let eq : i ≡ n = ground (arith, here) in rw eq (ground (arith, h))
  | inr there ↦ all_exited-at n threads (ground (arith, h)) i (ground (arith, lt, there))
]

told_count-zero :
    (n : ℕ) (threads : ℕ → Stage)
    → told_count n threads ≡ 0
    → (i : ℕ) → i < n
    → told_one (threads i) ≡ 0
told_count-zero zero threads h i lt = absurd (omega (arith, lt))
told_count-zero (suc n) threads h i lt = elim (Bool-cases (i == n)) [
  | inl here ↦ let eq : i ≡ n = ground (arith, here) in rw eq (omega (arith, h))
  | inr there ↦ told_count-zero n threads (omega (arith, h)) i (ground (arith, lt, there))
]

pub told_count-starting :
    (n : ℕ) (threads : ℕ → Stage)
    → ((i : ℕ) → i < n → threads i ≡ starting)
    → told_count n threads ≡ 0
told_count-starting zero threads h = refl
told_count-starting (suc n) threads h =
    let rest = told_count-starting n threads (λ i lt. h i (omega (arith, lt))) in
    rw (h n (omega arith), rest) refl

-- The stage of a worker at its end that has told no fault, or this fault.
quiet_end : (t : Stage) → is_exited t ≡ true → told_one t ≡ 0 → t ≡ exited (ok tt)
quiet_end (exited (ok tt)) h k = refl
quiet_end (exited (err x)) h k = absurd (ground (arith, k))
quiet_end t h k = absurd (ground (arith, h))

faulty_end :
    (t : Stage) (x : SystemError) → is_exited t ≡ true → told t ≡ some x → t ≡ exited (err x)
faulty_end (exited (ok u)) x h k = absurd (ground (arith, k))
faulty_end (exited (err y)) x h k = ground (arith, k)
faulty_end t x h k = absurd (ground (arith, h))

pub end-present : (t : Stage) → is_exited t ≡ true → present t ≡ 0
end-present (exited r) h = refl
end-present t h = absurd (ground (arith, h))

pub end-told : (t : Stage) → is_exited t ≡ true → told_one t ≡ failed_one t
end-told (exited (ok u)) h = refl
end-told (exited (err x)) h = refl
end-told t h = absurd (ground (arith, h))

-- How many loops ended with an error.
abbrev pub total_failed : ℕ → (ℕ → Stage) → ℕ
total_failed zero threads = 0
total_failed (suc n) threads = total_failed n threads + failed_one (threads n)

pub told-failed :
    (n : ℕ) (threads : ℕ → Stage)
    → ((i : ℕ) → i < n → is_exited (threads i) ≡ true)
    → told_count n threads ≡ total_failed n threads
told-failed zero threads h = refl
told-failed (suc n) threads h =
    let rest = told-failed n threads (λ i lt. h i (omega (arith, lt))) in
    let last = end-told (threads n) (h n (omega arith)) in omega (arith, rest, last)

pub join-over :
    {K : Type 0} (f g : Executor K) (r : Result (Unit {0}))
    → join f ≡ some (r, g)
    → (all_exited f.thread_count f.threads ≡ true)
      × (r ≡ first_fault f.faults)
      × (g.registry ≡ f.registry)
unfolding join
join-over f g r h = elim (Bool-cases (all_exited f.thread_count f.threads)) [
  | inl e ↦ let c = rw (join, e) at h in (e, ground (arith, c), ground (arith, c))
  | inr e ↦ let c = rw (join, e) at h in absurd (ground (arith, c))
]

-- The answer of a join over the faults.
pub answer :
    (n : ℕ) (threads : ℕ → Stage) (faults : List SystemError)
    → ((i : ℕ) → i < n → is_exited (threads i) ≡ true)
    → FromWorkers n threads faults
    → length faults ≡ told_count n threads
    → ((first_fault faults ≡ ok tt) × ((i : ℕ) → i < n → threads i ≡ exited (ok tt)))
      ⊎ ((x : SystemError) × (i : ℕ) × (first_fault faults ≡ err x)
          × (i < n)
          × (threads i ≡ exited (err x)))
answer n threads [] over sound counted =
    inl (
      refl,
      λ i lt. quiet_end (threads i) (over i lt) (told_count-zero n threads (sym counted) i lt),
    )
answer n threads (x ∷ xs) over ((i, lt, e), more) counted =
    inr (x, i, refl, lt, faulty_end (threads i) x (over i lt) e)
