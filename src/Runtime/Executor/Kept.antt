-- ===== src/Runtime/Executor/Kept.antt =====
-- Each step of the threads of src/runtime/executor.hpp keeps what the workers told in order.
use rain.Base.{
  ℕ, suc, ◌<◌, ◌≡◌, refl, ◌∙◌, sym, inl, inr, true, false, List, [], ◌∷◌, ◌++◌, none, some, arith,
  ◌==◌, ltb, if◌then◌else◌, update, length-append, count, count-append, Bool-cases, ==_refl,
}
use rain.Core.{SystemError, Result, ok, err}
use rain.Core.Diagnostics.{
  Sinks, count_metric, fetch_add, registry_add, registry_remove, count-registry_remove,
}
use rain.Async.Loop.{LoopSystem, Loop, request_stop}
use rain.Runtime.Executor.{
  FaultPolicy, fail_fast, log_only, is_fail_fast, Stage, starting, running, failing, stopping,
  leaving, exited, Executor, loop_at, put_loop, begin_worker, end_run, report_fault, stop_next,
  leave_worker,
}
use rain.Runtime.Executor.Told.{
  told, told_one, present, asked, Inv, told_count-same, told_count-new, FromWorkers-kept,
  FromWorkers-append,
}
use rain.Runtime.Executor.Steps.{
  IsStopped, request_stop-IsStopped, Acts-IsStopped, Step, begins, returns, reports, asks, leaves,
  acts, adds, removes, Steps, start, next,
}

module _ {K : Type 0} (system : LoopSystem K) (sinks : Sinks K)
    (thread_init teardown : ℕ → K → K) where
  -- A worker at a new stage that tells no new fault.
  moved-Inv :
      (n i : ℕ) (p : FaultPolicy) (e : Executor K) (t : Stage) (k : K) (loops : ℕ → Loop K)
      (registry : List ℕ)
      → told (e.threads i) ≡ told t
      → ((j : ℕ) → j < n → count j registry ≡ (if i == j then present t else count j e.registry))
      → ((j : ℕ) → IsStopped (e.loops j) → IsStopped (loops j))
      → (p ≡ fail_fast → (j : ℕ) → j < n → asked t j ≡ true → IsStopped (loops j))
      → Inv n p e
      → Inv n p (record e {
        kernel = k;
        loops = loops;
        threads = update e.threads i t;
        registry = registry;
      })
  moved-Inv n i p e t k loops registry same reg mono fast v = record {
    cores = v.cores;
    workers = v.workers;
    same_policy = v.same_policy;
    sound = FromWorkers-kept n i e.threads t e.faults (λ x h. sym same ∙ h) v.sound;
    counted = v.counted ∙ sym (told_count-same n i e.threads t same);
    registered = λ j lt. elim (Bool-cases (i == j)) [
      | inl h ↦ let r = reg j lt in rw h (rw h at r)
      | inr h ↦ let r = reg j lt in rw h ((rw h at r) ∙ v.registered j lt)
    ];
    errors = λ j lt. elim (Bool-cases (i == j)) [
      | inl h ↦
          let at : j ≡ i = ground (arith, h) in
          let old : (e.counters i).loop_run_errors ≡ told_one (e.threads i) =
            rw at at (v.errors j lt) in
          rw (h, at, old, same) refl
      | inr h ↦ rw h (v.errors j lt)
    ];
    stopped = λ q a j la lj. elim (Bool-cases (i == a)) [
      | inl h ↦ rw h (fast q j lj)
      | inr h ↦ rw h (λ s. mono j (v.stopped q a j la lj s))
    ];
  }

  begin-Inv :
      (n i : ℕ) (p : FaultPolicy) (e : Executor K)
      → e.threads i ≡ starting
      → Inv n p e
      → Inv n p (begin_worker system sinks thread_init teardown i e)
  unfolding begin_worker registry_add
  begin-Inv n i p e at v =
      moved-Inv n i p e running _ e.loops (e.registry ++ (i ∷ [])) (rw at refl)
        (λ j lt. elim (Bool-cases (i == j)) [
          | inl h ↦
              let eq : j ≡ i = ground (arith, h) in
              let none_yet : count j e.registry ≡ 0 = v.registered j lt ∙ rw (eq, at) refl in
              ground (arith, h, none_yet, count-append j e.registry (i ∷ []))
          | inr h ↦ ground (arith, h, count-append j e.registry (i ∷ []))
        ])
        (λ j s. s) (λ q j lj a. absurd (ground (arith, a))) v

  -- A registry that stays.
  stays :
      (n i : ℕ) (p : FaultPolicy) (e : Executor K) (t : Stage)
      → present (e.threads i) ≡ present t
      → Inv n p e
      → (j : ℕ) → j < n
      → count j e.registry ≡ (if i == j then present t else count j e.registry)
  stays n i p e t same v j lt = elim (Bool-cases (i == j)) [
    | inl h ↦ let eq : j ≡ i = ground (arith, h) in rw h (v.registered j lt ∙ rw eq same)
    | inr h ↦ rw h refl
  ]

  pub put_loop_mono :
      (i : ℕ) (l : Loop K) (e : Executor K)
      → (IsStopped (e.loops i) → IsStopped l)
      → (j : ℕ) → IsStopped (e.loops j)
      → IsStopped (update e.loops i l j)
  put_loop_mono i l e keep j s = elim (Bool-cases (i == j)) [
    | inl h ↦ let eq : j ≡ i = ground (arith, h) in rw h (keep (rw eq at s))
    | inr h ↦ rw h s
  ]

  end-Inv :
      (n i : ℕ) (p : FaultPolicy) (e : Executor K) (r : Result (Unit {0})) (l : Loop K)
      → e.threads i ≡ running
      → (IsStopped (e.loops i) → IsStopped l)
      → Inv n p e
      → Inv n p (end_run system sinks thread_init teardown i r l e)
  unfolding end_run
  end-Inv n i p e (ok u) l at keep v =
      moved-Inv n i p e (leaving (ok tt)) _ _ e.registry (rw at refl)
        (stays n i p e (leaving (ok tt)) (rw at refl) v) (put_loop_mono i l e keep)
        (λ q j lj a. absurd (ground (arith, a))) v
  end-Inv n i p e (err x) l at keep v =
      moved-Inv n i p e (failing x) _ _ e.registry (rw at refl)
        (stays n i p e (failing x) (rw at refl) v) (put_loop_mono i l e keep)
        (λ q j lj a. absurd (ground (arith, a))) v

  ask-Inv :
      (n i : ℕ) (p : FaultPolicy) (e : Executor K) (x : SystemError) (j : ℕ)
      → i < n
      → e.threads i ≡ stopping x j
      → Inv n p e
      → Inv n p (stop_next system sinks thread_init teardown i x j e)
  unfolding stop_next
  ask-Inv n i p e x j li at v = elim (Bool-cases (ltb j e.core_count)) [
    | inl h ↦
        let l = request_stop system (loop_at j e) in
        let stops_it = request_stop-IsStopped system (loop_at j e) in
        rw h (
          moved-Inv n i p e (stopping x (suc j)) _ (update e.loops j l) e.registry (rw at refl)
            (stays n i p e (stopping x (suc j)) (rw at refl) v)
            (put_loop_mono j l e (λ s. stops_it))
            (λ q a la asked_it. elim (Bool-cases (j == a)) [
              | inl here ↦ rw here stops_it
              | inr there ↦
                  rw there (v.stopped q i a li la (rw at (ground (arith, asked_it, there))))
            ])
            v)
    | inr h ↦ rw h (
        moved-Inv n i p e (leaving (err x)) _ e.loops e.registry (rw at refl)
          (stays n i p e (leaving (err x)) (rw at refl) v) (λ a s. s)
          (λ q a la asked_it. v.stopped q i a li la (rw at (ground (arith, h, la, v.cores)))) v)
  ]

  leave-Inv :
      (n i : ℕ) (p : FaultPolicy) (e : Executor K) (r : Result (Unit {0}))
      → i < n
      → e.threads i ≡ leaving r
      → Inv n p e
      → Inv n p (leave_worker system sinks thread_init teardown i r e)
  unfolding leave_worker
  leave-Inv n i p e r li at v =
      moved-Inv n i p e (exited r) _ e.loops (registry_remove i e.registry) (rw at (same_told r))
        (λ j lt. count-registry_remove j i e.registry ∙ ground arith) (λ j s. s)
        (λ q j lj a. v.stopped q i j li lj (rw at (asked_same r j a))) v
    where
      same_told : (r : Result (Unit {0})) → told (leaving r) ≡ told (exited r)
      same_told (ok u) = refl
      same_told (err x) = refl

      asked_same :
          (r : Result (Unit {0})) (j : ℕ) → asked (exited r) j ≡ true → asked (leaving r) j ≡ true
      asked_same (ok u) j a = a
      asked_same (err x) j a = a

  -- Where a worker goes on that has told its fault.
  abbrev next_stage : FaultPolicy → SystemError → Stage
  next_stage p x = if is_fail_fast p then stopping x 0 else leaving (err x)

  next_stage-told : (p : FaultPolicy) (x : SystemError) → told (next_stage p x) ≡ some x
  next_stage-told fail_fast x = refl
  next_stage-told log_only x = refl

  next_stage-present : (p : FaultPolicy) (x : SystemError) → present (next_stage p x) ≡ 1
  next_stage-present fail_fast x = refl
  next_stage-present log_only x = refl

  next_stage-asked :
      (p : FaultPolicy) (x : SystemError) (j : ℕ) → p ≡ fail_fast → asked (next_stage p x) j ≡ false
  next_stage-asked p x j e = rw e (ground arith)

  report-Inv :
      (n i : ℕ) (p : FaultPolicy) (e : Executor K) (x : SystemError)
      → i < n
      → e.threads i ≡ failing x
      → Inv n p e
      → Inv n p (report_fault system sinks thread_init teardown i x e)
  unfolding report_fault count_metric fetch_add
  report-Inv n i p e x li at v =
      let t = next_stage e.policy x in
      let tells = next_stage-told e.policy x in
      let silent : told (e.threads i) ≡ none = rw at refl in
      let now : told (update e.threads i t i) ≡ some x = rw (==_refl i) tells in
      record {
        cores = v.cores;
        workers = v.workers;
        same_policy = v.same_policy;
        sound = FromWorkers-append n (update e.threads i t) e.faults x i li now (
            FromWorkers-kept n i e.threads t e.faults (λ y h. absurd (ground (arith, silent, h)))
              v.sound);
        counted =
            length-append e.faults (x ∷ [])
            ∙ omega (arith, v.counted, told_count-new n i e.threads t x li silent tells);
        registered = λ j lj. elim (Bool-cases (i == j)) [
          | inl h ↦
              let eq : j ≡ i = ground (arith, h) in
              rw h (v.registered j lj ∙ rw (eq, at, next_stage-present) refl)
          | inr h ↦ rw h (v.registered j lj)
        ];
        errors = λ j lj. elim (Bool-cases (i == j)) [
          | inl h ↦
              let old : (e.counters i).loop_run_errors ≡ 0 = v.errors i li ∙ rw at refl in
              rw (h, tells, old) refl
          | inr h ↦ rw h (v.errors j lj)
        ];
        stopped = λ q a j la lj. elim (Bool-cases (i == a)) [
          | inl h ↦
              let quiet = next_stage-asked e.policy x j (v.same_policy ∙ q) in
              rw h (λ s. absurd (ground (arith, quiet, s)))
          | inr h ↦ rw h (v.stopped q a j la lj)
        ];
      }

  act-Inv :
      (n i : ℕ) (p : FaultPolicy) (e : Executor K) (l : Loop K)
      → (IsStopped (e.loops i) → IsStopped l)
      → Inv n p e
      → Inv n p (put_loop i l e)
  act-Inv n i p e l keep v = record {
    cores = v.cores;
    workers = v.workers;
    same_policy = v.same_policy;
    sound = v.sound;
    counted = v.counted;
    registered = v.registered;
    errors = v.errors;
    stopped = λ q a j la lj s. put_loop_mono i l e keep j (v.stopped q a j la lj s);
  }

  registry-Inv :
      (n : ℕ) (p : FaultPolicy) (e : Executor K) (registry : List ℕ)
      → ((j : ℕ) → j < n → count j registry ≡ count j e.registry)
      → Inv n p e
      → Inv n p (record e { registry = registry })
  registry-Inv n p e registry same v = record {
    cores = v.cores;
    workers = v.workers;
    same_policy = v.same_policy;
    sound = v.sound;
    counted = v.counted;
    registered = λ j lj. same j lj ∙ v.registered j lj;
    errors = v.errors;
    stopped = v.stopped;
  }

  pub Step-Inv :
      (n : ℕ) (p : FaultPolicy) {e f : Executor K}
      → Step system sinks thread_init teardown e f
      → Inv n p e
      → Inv n p f
  unfolding registry_add
  Step-Inv n p {e} (begins i li at) v = begin-Inv n i p e at v
  Step-Inv n p {e} (returns i r l li at keep) v = end-Inv n i p e r l at keep v
  Step-Inv n p {e} (reports i x li at) v = report-Inv n i p e x (omega (arith, li, v.workers)) at v
  Step-Inv n p {e} (asks i x j li at) v = ask-Inv n i p e x j (omega (arith, li, v.workers)) at v
  Step-Inv n p {e} (leaves i r li at) v = leave-Inv n i p e r (omega (arith, li, v.workers)) at v
  Step-Inv n p {e} (acts j {m} a) v = act-Inv n j p e m (Acts-IsStopped system a) v
  Step-Inv n p {e} (adds c le) v =
      registry-Inv n p e (e.registry ++ (c ∷ []))
        (λ j lj. ground (arith, v.workers, le, lj, count-append j e.registry (c ∷ []))) v
  Step-Inv n p {e} (removes c le) v =
      registry-Inv n p e (registry_remove c e.registry)
        (λ j lj. ground (arith, v.workers, le, lj, count-registry_remove j c e.registry)) v

  pub Steps-Inv :
      (n : ℕ) (p : FaultPolicy) {e f : Executor K}
      → Steps system sinks thread_init teardown e f
      → Inv n p e
      → Inv n p f
  Steps-Inv n p start v = v
  Steps-Inv n p (next before s) v = Step-Inv n p s (Steps-Inv n p before v)
