-- ===== src/Runtime/Executor/Told.antt =====
-- What the worker threads of src/runtime/executor.hpp have told: their faults, the counters that they have
-- registered, and the loops that they have stopped.
use rain.Base.{
  ℕ, zero, suc, ◌+◌, ◌≤◌, ◌<◌, ◌≡◌, refl, inl, inr, Bool, true, false, List, [], ◌∷◌, ◌++◌, Option,
  none, some, is_some, arith, ◌==◌, ltb, if◌then◌else◌, update, length, count, Bool-cases,
}
use rain.Core.{SystemError, err}
use rain.Runtime.Executor.{
  FaultPolicy, fail_fast, Stage, starting, stopping, leaving, exited, Executor,
}

-- The fault that a worker has told.
abbrev pub told : Stage → Option SystemError
told (stopping x j) = some x
told (leaving (err x)) = some x
told (exited (err x)) = some x
told t = none

abbrev pub told_one : Stage → ℕ
told_one t = if is_some (told t) then 1 else 0

abbrev pub told_count : ℕ → (ℕ → Stage) → ℕ
told_count zero threads = 0
told_count (suc n) threads = told_count n threads + told_one (threads n)

-- Whether the counters of a worker are registered.
abbrev pub present : Stage → ℕ
present starting = 0
present (exited r) = 0
present t = 1

-- Whether a worker that fails fast has asked loop `j` to stop.
abbrev pub asked : Stage → ℕ → Bool
asked (stopping x k) j = ltb j k
asked (leaving (err x)) j = true
asked (exited (err x)) j = true
asked t j = false

-- Each fault is one that a worker has told.
abbrev pub FromWorkers : ℕ → (ℕ → Stage) → List SystemError → Type 0
FromWorkers n threads [] = Unit
FromWorkers n threads (x ∷ xs) =
    ((i : ℕ) × (i < n) × (told (threads i) ≡ some x)) × FromWorkers n threads xs

pub record Inv {K : Type 0} (n : ℕ) (policy : FaultPolicy) (e : Executor K) : Type 0 where
  pub cores : e.core_count ≡ n
  pub workers : e.thread_count ≡ n
  pub same_policy : e.policy ≡ policy
  pub sound : FromWorkers n e.threads e.faults
  pub counted : length e.faults ≡ told_count n e.threads
  pub registered : (i : ℕ) → i < n → count i e.registry ≡ present (e.threads i)
  pub errors : (i : ℕ) → i < n → (e.counters i).loop_run_errors ≡ told_one (e.threads i)
  pub stopped :
      policy ≡ fail_fast
      → (i j : ℕ) → i < n
      → j < n
      → asked (e.threads i) j ≡ true
      → (e.loops j).stop_requested ≡ true

-- A worker at another stage.
pub told_count-same :
    (n i : ℕ) (threads : ℕ → Stage) (t : Stage)
    → told (threads i) ≡ told t
    → told_count n (update threads i t) ≡ told_count n threads
told_count-same zero i threads t e = refl
told_count-same (suc n) i threads t e =
    let rest = told_count-same n i threads t e in
    elim (Bool-cases (i == n)) [
      | inl here ↦
          let at : i ≡ n = ground (arith, here) in
          let e' : told (threads n) ≡ told t = rw (← at) e in rw (here, e', rest) refl
      | inr there ↦ rw (there, rest) refl
    ]

told_count-past :
    (n i : ℕ) (threads : ℕ → Stage) (t : Stage)
    → n ≤ i
    → told_count n (update threads i t) ≡ told_count n threads
told_count-past zero i threads t h = refl
told_count-past (suc n) i threads t h =
    let rest = told_count-past n i threads t (omega (arith, h)) in
    let there : (i == n) ≡ false = ground (arith, h) in rw (there, rest) refl

pub told_count-new :
    (n i : ℕ) (threads : ℕ → Stage) (t : Stage) (x : SystemError)
    → i < n
    → told (threads i) ≡ none
    → told t ≡ some x
    → told_count n (update threads i t) ≡ suc (told_count n threads)
told_count-new zero i threads t x h old new = absurd (omega (arith, h))
told_count-new (suc n) i threads t x h old new = elim (Bool-cases (i == n)) [
  | inl here ↦
      let at : i ≡ n = ground (arith, here) in
      let old' : told (threads n) ≡ none = rw (← at) old in
      let rest = told_count-past n i threads t (omega (arith, at)) in
      rw (here, rest, old', new) (omega arith)
  | inr there ↦
      let rest = told_count-new n i threads t x (ground (arith, h, there)) old new in
      rw (there, rest) (omega arith)
]

pub FromWorkers-kept :
    (n i : ℕ) (threads : ℕ → Stage) (t : Stage) (xs : List SystemError)
    → ((x : SystemError) → told (threads i) ≡ some x → told t ≡ some x)
    → FromWorkers n threads xs
    → FromWorkers n (update threads i t) xs
FromWorkers-kept n i threads t [] keep s = tt
FromWorkers-kept n i threads t (x ∷ xs) keep ((j, lt, e), more) = (
  elim (Bool-cases (i == j)) [
    | inl here ↦
        let at : j ≡ i = ground (arith, here) in
        let e' : told (threads i) ≡ some x = rw at at e in (j, lt, rw here (keep x e'))
    | inr there ↦ (j, lt, rw there e)
  ],
  FromWorkers-kept n i threads t xs keep more,
)

pub FromWorkers-append :
    (n : ℕ) (threads : ℕ → Stage) (xs : List SystemError) (x : SystemError) (i : ℕ)
    → i < n
    → told (threads i) ≡ some x
    → FromWorkers n threads xs
    → FromWorkers n threads (xs ++ (x ∷ []))
FromWorkers-append n threads [] x i lt e s = ((i, lt, e), tt)
FromWorkers-append n threads (y ∷ ys) x i lt e (first, more) =
    (first, FromWorkers-append n threads ys x i lt e more)
