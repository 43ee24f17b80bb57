-- ===== src/Runtime/Bridge/Whole/Answered.antt =====
-- What `spawn_blocking` of src/runtime/bridge.hpp answers, in whatever order worker and others go on.
use rain.Base.{
  ℕ, ◌+◌, ◌≡◌, ◌∙◌, ap, refl, subst, sym, ◌⊎◌, inl, inr, ◌++◌, List, [], ◌∷◌, ℤ, pos, arith, Option,
  none, some, ltb, true, Bool-cases, Option-cases,
}
use rain.Core.{SystemError, from_errno, Syscall-outcome, Result, ok, err}
use rain.Async.Reactor.Slots.{Epoll, World}
use rain.Runtime.ThreadPool.{Pool}
use rain.Runtime.Bridge.{
  EventfdSystem, create_notifier, notify_fd, acknowledge, BlockingAwaiter, BlockingState,
  blocking_state, blocking_suspend, blocking_entry, completes, store_outcome, notify_stored,
}
use rain.Runtime.Bridge.Blocking.{blocking_suspend_lem, blocking_resume-acknowledged}
use rain.Runtime.Bridge.Whole.{
  Job, queued, ran, stored, notified, Waiting, Happening, works, elsewhere, work_step, play_one,
  play, begun, finish, suspended, spawn_blocking,
}

-- The outcome of a job whose function has returned, and how often that has.
abbrev returned_with : {A : Type 0} → Job A → Option (Option A)
returned_with queued = none
returned_with (ran o) = some o
returned_with (stored o) = some o
returned_with (notified o) = some o

abbrev begun_once : {A : Type 0} → Job A → ℕ
begun_once queued = 0
begun_once (ran o) = 1
begun_once (stored o) = 1
begun_once (notified o) = 1

-- What the job has left where it stands: nothing was sent before the outcome was stored.
abbrev Left : {A : Type 0} → Job A → Result A → ℕ → Type 0
Left queued r wakes = wakes ≡ 0
Left (ran o) r wakes = wakes ≡ 0
Left (stored o) r wakes = (wakes ≡ 0) × (r ≡ completes o)
Left (notified o) r wakes = r ≡ completes o

-- `runs` counts in the kernel how often the function of the job has run to its end: it does so once each time, and
-- writing to an eventfd does not run it.
pub record CountsRuns {K A : Type 0} (sys : EventfdSystem K) (work : K → Option (Option A × K))
    (runs : K → ℕ) : Type 0 where
  pub by_work : (u k : K) (o : Option A) → work u ≡ some (o, k) → runs k ≡ runs u + 1
  pub by_write : (fd : ℤ) (k : K) → runs (sys.write_one fd k).1 ≡ runs k

-- Nothing else runs it.
abbrev pub KeepsRuns : {K : Type 0} → (K → ℕ) → List (Happening K) → Type 0
KeepsRuns runs [] = Unit
KeepsRuns runs (works ∷ es) = KeepsRuns runs es
KeepsRuns {K} runs (elsewhere f ∷ es) =
    ((p : Pool) (w : World K) → runs (f (p, w)).1.kernel ≡ runs w.kernel) × KeepsRuns runs es

module _ {K A : Type 0} (sys : EventfdSystem K) (work : K → Option (Option A × K)) where
  -- The moment at which the function of a job that was queued has run, in a schedule after which it has.
  abbrev pub RanAt : List (Happening K) → Waiting K A → Option A → Type 0
  RanAt es m o =
      (before : List (Happening K)) × (later : List (Happening K)) × (k : K) × (es
        ≡ before ++ (works ∷ later))
      × (work (play sys work before m).world.kernel ≡ some (o, k))

module _ {K A : Type 0} (sys : EventfdSystem K) (work : K → Option (Option A × K)) (runs : K → ℕ)
    (counts : CountsRuns sys work runs)
    (writes : (fd : ℕ) (k : K) → (notify_fd sys (pos fd) k).0 ≡ ok tt) where
  record Inv (base fd : ℕ) (m : Waiting K A) : Type 0 where
    at : m.shared.notifier ≡ pos fd
    left : Left m.job m.shared.result m.wakes
    counted : runs m.world.kernel ≡ base + begun_once m.job

  notify_fd-runs : (fd : ℤ) (k : K) → runs (notify_fd sys fd k).1 ≡ runs k
  unfolding notify_fd
  notify_fd-runs fd k = ground (arith, counts.by_write fd k)

  abbrev waiting : BlockingState A → Pool → World K → Job A → ℕ → Waiting K A
  waiting s p w j c = record { shared = s; pool = p; world = w; job = j; wakes = c }

  work_step-Inv :
      (base fd : ℕ) (s : BlockingState A) (p : Pool) (w : World K) (j : Job A) (c : ℕ)
      → Inv base fd (waiting s p w j c)
      → Inv base fd (work_step sys work (waiting s p w j c))
  unfolding work_step store_outcome notify_stored
  work_step-Inv base fd s p w queued c v = elim (Option-cases (work w.kernel)) [
    | inl e ↦ rw (work_step, e) v
    | inr ((o, k), e) ↦
        let one = counts.by_work w.kernel k o e in
        let before = v.counted in
        rw (work_step, e)
          (record { at = v.at; left = v.left; counted = omega (arith, one, before) })
  ]
  work_step-Inv base fd s p w (ran o) c v = record {
    at = v.at;
    left = (v.left, refl);
    counted = v.counted;
  }
  work_step-Inv base fd s p w (stored o) c v =
      let sent : (notify_fd sys s.notifier w.kernel).0 ≡ ok tt = rw (v.at) (writes fd w.kernel) in
      let same = notify_fd-runs s.notifier w.kernel in
      rw (work_step, notify_stored, sent)
        (record { at = v.at; left = v.left.1; counted = same ∙ v.counted })
  work_step-Inv base fd s p w (notified o) c v = v

  -- A function that has returned has returned.
  work_step-returned :
      (s : BlockingState A) (p : Pool) (w : World K) (j : Job A) (c : ℕ) (o : Option A)
      → returned_with j ≡ some o
      → returned_with (work_step sys work (waiting s p w j c)).job ≡ some o
  unfolding work_step
  work_step-returned s p w queued c o h = absurd (ground (arith, h))
  work_step-returned s p w (ran x) c o h = h
  work_step-returned s p w (stored x) c o h = h
  work_step-returned s p w (notified x) c o h = h

  play-Inv :
      (base fd : ℕ) (es : List (Happening K)) (m : Waiting K A)
      → KeepsRuns runs es
      → Inv base fd m
      → Inv base fd (play sys work es m)
  unfolding play play_one
  play-Inv base fd [] m keeps v = v
  play-Inv base fd (works ∷ es) m keeps v =
      play-Inv base fd es (work_step sys work m) keeps
        (work_step-Inv base fd m.shared m.pool m.world m.job m.wakes v)
  play-Inv base fd (elsewhere f ∷ es) m (keep, keeps) v =
      play-Inv base fd es (play_one sys work (elsewhere f) m) keeps
        (record { at = v.at; left = v.left; counted = keep m.pool m.world ∙ v.counted })

  play-returned :
      (es : List (Happening K)) (m : Waiting K A) (o : Option A)
      → returned_with m.job ≡ some o
      → returned_with (play sys work es m).job ≡ some o
  unfolding play play_one
  play-returned [] m o h = h
  play-returned (works ∷ es) m o h =
      play-returned es (work_step sys work m) o
        (work_step-returned m.shared m.pool m.world m.job m.wakes o h)
  play-returned (elsewhere f ∷ es) m o h = play-returned es (play_one sys work (elsewhere f) m) o h

  play-RanAt :
      (es : List (Happening K)) (s : BlockingState A) (p : Pool) (w : World K) (c : ℕ)
      (o : Option A)
      → returned_with (play sys work es (waiting s p w queued c)).job ≡ some o
      → RanAt sys work es (waiting s p w queued c) o
  unfolding play play_one work_step
  play-RanAt [] s p w c o h = absurd (ground (arith, h))
  play-RanAt (elsewhere f ∷ es) s p w c o h =
      let (q, v) = f (p, w) in
      let (before, later, k, split, at) = play-RanAt es s q v c o h in
      (elsewhere f ∷ before, later, k, ap (λ xs. elsewhere f ∷ xs) split, at)
  play-RanAt (works ∷ es) s p w c o h = elim (Option-cases (work w.kernel)) [
    | inl e ↦
        let still : work_step sys work (waiting s p w queued c) ≡ waiting s p w queued c =
          rw (work_step, e) refl in
        let (before, later, k, split, at) =
          play-RanAt es s p w c o
            (subst (λ x. returned_with (play sys work es x).job ≡ some o) still h) in
        (
          works ∷ before,
          later,
          k,
          ap (λ xs. works ∷ xs) split,
          subst (λ x. work (play sys work before x).world.kernel ≡ some (o, k)) (sym still) at,
        )
    | inr ((x, k), e) ↦
        let m : Waiting K A = waiting s p (record w { kernel = k }) (ran x) c in
        let stepped : work_step sys work (waiting s p w queued c) ≡ m = rw (work_step, e) refl in
        let now = play-returned es m x refl in
        let then : returned_with (play sys work es m).job ≡ some o =
          subst (λ x. returned_with (play sys work es x).job ≡ some o) stepped h in
        let same : x ≡ o = ground (arith, now, then) in ([], es, k, refl, rw (← same) e)
  ]

  -- A job that has woken its coroutine.
  woken :
      (base fd : ℕ) (m : Waiting K A)
      → Inv base fd m
      → ltb 0 m.wakes ≡ true
      → (o : Option A) × (returned_with m.job ≡ some o)
        × (m.shared.result ≡ completes o)
        × (runs m.world.kernel ≡ base + 1)
  woken base fd m v h = cases m.shared m.pool m.world m.job m.wakes v h
    where
      cases :
          (s : BlockingState A) (p : Pool) (w : World K) (j : Job A) (c : ℕ)
          → Inv base fd (waiting s p w j c)
          → ltb 0 c ≡ true
          → (o : Option A) × (returned_with j ≡ some o)
            × (s.result ≡ completes o)
            × (runs w.kernel ≡ base + 1)
      cases s p w queued c v h = absurd (ground (arith, h, v.left))
      cases s p w (ran o) c v h = absurd (ground (arith, h, v.left))
      cases s p w (stored o) c v h = absurd (ground (arith, h, v.left.0))
      cases s p w (notified o) c v h = (o, refl, v.left, v.counted)

module _ {K A : Type 0} (epoll : Epoll K) (sys : EventfdSystem K) (work : K → Option (Option A × K))
    (schedule : List (Happening K)) (runs : K → ℕ) where
  -- The coroutine as it begins to wait on its notifier `fd`.
  abbrev pub at_wait : ℕ → ℕ → BlockingAwaiter → Pool → World K → Waiting K A
  at_wait fd h a p w = begun epoll sys work schedule (
      blocking_suspend epoll h a (blocking_state (pos fd)) p
        (record w { kernel = (create_notifier sys w.kernel).1 }))

  -- It answers an error and its job was not accepted; or it waited on a notifier `fd`, its job accepted, until the
  -- function had run, once, at a moment of the schedule; and answers what that came to.
  abbrev pub Answers : ℕ → BlockingAwaiter → Pool → World K → Result A → Pool → Type 0
  Answers h a p w r p' =
      ((e : SystemError) × (r ≡ err e) × (p'.accepted ≡ p.accepted))
      ⊎ ((fd : ℕ) × (outcome : Option A) × ((create_notifier sys w.kernel).0 ≡ ok (pos fd))
          × (let m = at_wait fd h a p w in
              (m.pool.accepted ≡ p.accepted ++ (a.work ∷ []))
              × ((m.world.reactor.slots fd).read ≡ some (blocking_entry h a))
              × RanAt sys work schedule m outcome
              × (runs (play sys work schedule m).world.kernel ≡ runs m.world.kernel + 1)
              × (r ≡ completes outcome)))

  -- `spawn_blocking` that ends, where writing to and reading from eventfds succeed, under any schedule of the
  -- worker's steps and of anything else that does not run its function. Either it answers an error and the pool
  -- has not accepted its job. Or the coroutine waited on its eventfd, the pool having accepted the job; the function
  -- has run, at a moment of the schedule, and once in all of it; and the answer is what it came to then.
  pub whole_lem :
      (h : ℕ) (a : BlockingAwaiter) (p p' : Pool) (w w' : World K) (r : Result A)
      → CountsRuns sys work runs
      → KeepsRuns runs schedule
      → ((fd : ℕ) (k : K) → (notify_fd sys (pos fd) k).0 ≡ ok tt)
      → ((fd : ℕ) (k : K) → (n : ℕ) × ((acknowledge sys (pos fd) k).0 ≡ ok n))
      → spawn_blocking epoll sys work schedule h a p w ≡ some (r, p', w')
      → Answers h a p w r p'
  unfolding spawn_blocking create_notifier suspended finish
  whole_lem h a p p' w w' r counts keeps writes reads ended =
      elim (Syscall-outcome (sys.eventfd w.kernel).0) [
        | inr (x, e) ↦
            let c = rw (spawn_blocking, create_notifier, e) at ended in
            inl (from_errno x, ground (arith, c), ground (arith, c))
        | inl (fd, e) ↦
            let made : (create_notifier sys w.kernel).0 ≡ ok (pos fd) =
              rw (create_notifier, e) refl in
            let w0 : World K = record w { kernel = (create_notifier sys w.kernel).1 } in
            let (stays, s, p1, w1) =
              blocking_suspend epoll h a (blocking_state {A = A} (pos fd)) p w0 in
            let m = at_wait fd h a p w in
            let n = play sys work schedule m in
            elim (blocking_suspend_lem epoll sys h fd a (blocking_state {A = A} (pos fd)) p w0
              refl) [
                | inr (now, accepted, (x, left)) ↦
                    let c = rw (spawn_blocking, made, suspended, now) at ended in
                    let at : s.notifier ≡ pos fd = ap (λ t. t.notifier) left in
                    let (k, ack) = reads fd w1.kernel in
                    let gives = blocking_resume-acknowledged epoll sys s w1 k (rw at ack) in
                    inl (x, ground (arith, c, gives, left), ground (arith, c, accepted))
                | inl (later, left, accepted, entry) ↦
                    let first : Inv sys work runs counts writes (runs m.world.kernel) fd m =
                      record {
                        at = ap (λ t. t.notifier) left;
                        left = refl;
                        counted = omega arith;
                      } in
                    let v =
                      play-Inv sys work runs counts writes (runs m.world.kernel) fd schedule m keeps
                        first in
                    elim (Bool-cases (ltb 0 n.wakes)) [
                      | inr sleeps ↦
                          let c = rw (spawn_blocking, made, suspended, later, sleeps) at ended in
                          absurd (ground (arith, c))
                      | inl wakes ↦
                          let c = rw (spawn_blocking, made, suspended, later, wakes) at ended in
                          let (o, back, result, once) =
                            woken sys work runs counts writes (runs m.world.kernel) fd n v wakes in
                          let (k, ack) = reads fd n.world.kernel in
                          let gives =
                            blocking_resume-acknowledged epoll sys n.shared n.world k
                              (rw (v.at) ack) in
                          inr (
                            fd,
                            o,
                            made,
                            (
                              accepted,
                              entry,
                              play-RanAt sys work runs counts writes schedule m.shared m.pool
                                  m.world 0 o back,
                              once,
                              ground (arith, c, gives, result),
                            ),
                          )
                    ]
              ]
      ]
