-- ===== src/Async/Loop/Tasks.antt =====
-- No task that the event loop accepted is lost, and `run` ends by itself only when all are done.
use rain.Base.{
  ◌∙◌, ℕ, zero, suc, ◌≡◌, ◌≢◌, refl, inl, inr, true, false, ◌||◌, List, [], ◌∷◌, none, some, arith,
  ◌==◌, Bool-cases, Option-cases,
}
use rain.Core.{Result, ok, Result-cases}
use rain.Async.Loop.{LoopSystem, Loop, drain_cross_core}
use rain.Async.Loop.Run.{
  is_empty, resume_all, poll_io, take_io, take_timers, resume_ready, look_again, run_round, run,
}
use rain.Async.Loop.Acts.{Has, Acts, Acts-Has, cleanup-Has, drain-Has}

is_empty→eq : (xs : List ℕ) → is_empty xs ≡ true → xs ≡ []
is_empty→eq [] h = refl
is_empty→eq (x ∷ xs) h = absurd (ground (arith, h))

module _ {K : Type 0} (system : LoopSystem K) where
  module _ (resume : ℕ → Loop K → Loop K) (others : Loop K → Loop K)
      (resumes : (h : ℕ) (l : Loop K) → Acts system l (resume h l))
      (act : (l : Loop K) → Acts system l (others l)) where
    resume_all-Has :
        (t : ℕ) (hs : List ℕ) (l : Loop K) → Has t l → Has t (resume_all system resume others hs l)
    unfolding resume_all
    resume_all-Has t [] l k = k
    resume_all-Has t (h ∷ hs) l k = elim (Bool-cases (h == 0 || l.done h)) [
      | inl e ↦ rw (resume_all, e) (resume_all-Has t hs l k)
      | inr e ↦
          rw (resume_all, e) (resume_all-Has t hs (resume h l) (Acts-Has system t (resumes h l) k))
    ]

    look_again-Has : (t : ℕ) (l : Loop K) → Has t l → Has t (look_again system resume others l)
    unfolding look_again
    look_again-Has t l k = elim (Bool-cases (is_empty l.owned_tasks)) [
      | inl e ↦ rw e (drain-Has system t (others l) (Acts-Has system t (act l) k))
      | inr e ↦ rw e k
    ]

    run_round-Has :
        (t : ℕ) (l : Loop K) → t ≢ 0 → Has t l → Has t (run_round system resume others l).1
    unfolding run_round poll_io take_io take_timers resume_ready
    run_round-Has t l h k =
        let l0 = resume_ready system resume others l in
        let l1 = look_again system resume others l0 in
        let k1 : Has t l1 =
          look_again-Has t l0 (cleanup-Has system t _ h (resume_all-Has t _ _ k)) in
        let (r, l2) = poll_io system resume others l1 in
        let l3 = take_timers system resume others (take_io system resume others l2) in
        elim (Bool-cases (is_empty l1.owned_tasks)) [
          | inl e ↦ rw (run_round, e) k1
          | inr e ↦ elim (Result-cases r) [
            | inl (n, e2) ↦
                rw (run_round, e, e2)
                  (drain-Has system t (others l3) (Acts-Has system t (act l3) k1))
            | inr (x, e2) ↦ rw (run_round, e, e2) k1
          ]
        ]

    -- The three ways in which an iteration of `run` goes.
    run-stopped :
        (fuel : ℕ) (l : Loop K)
        → l.stop_requested ≡ true
        → run system resume others (suc fuel) l ≡ (some (ok tt), l)
    unfolding run
    run-stopped fuel l e = simp e refl

    run-over :
        (fuel : ℕ) (l : Loop K) (r : Result (Unit {0}))
        → l.stop_requested ≡ false
        → (run_round system resume others l).0 ≡ some r
        → run system resume others (suc fuel) l ≡ (some r, (run_round system resume others l).1)
    unfolding run
    run-over fuel l r e over = simp (e, over) refl

    run-more :
        (fuel : ℕ) (l : Loop K)
        → l.stop_requested ≡ false
        → (run_round system resume others l).0 ≡ none
        → run system resume others (suc fuel) l
          ≡ run system resume others fuel (run_round system resume others l).1
    unfolding run
    run-more fuel l e more = simp (e, more) refl

    -- A task that the loop or its inbox holds at any time stays there until its coroutine has ended,
    -- whatever coroutines and other threads do, and however long the loop runs.
    pub run-Has :
        (fuel t : ℕ) (l : Loop K) → t ≢ 0 → Has t l → Has t (run system resume others fuel l).1
    unfolding run
    run-Has zero t l h k = k
    run-Has (suc fuel) t l h k =
        let next = run_round system resume others l in
        elim (Bool-cases l.stop_requested) [
          | inl e ↦ rw (run-stopped fuel l e) k
          | inr e ↦ elim (Option-cases next.0) [
            | inl more ↦
                rw (run-more fuel l e more) (run-Has fuel t next.1 h (run_round-Has t l h k))
            | inr (r, over) ↦ rw (run-over fuel l r e over) (run_round-Has t l h k)
          ]
        ]

    abbrev Drained : Loop K → Type 0
    Drained m = (m.owned_tasks ≡ []) × (m.cross_core_queue ≡ [])

    -- A round that returns well owns nothing and has nothing in its inbox.
    run_round-Drained :
        (l : Loop K)
        → (run_round system resume others l).0 ≡ some (ok tt)
        → Drained (run_round system resume others l).1
    unfolding run_round look_again drain_cross_core
    run_round-Drained l h =
        let l0 = resume_ready system resume others l in
        let l1 = look_again system resume others l0 in
        let r = (poll_io system resume others l1).0 in
        elim (Bool-cases (is_empty l1.owned_tasks)) [
          | inl e ↦
              let nothing_owned = is_empty→eq l1.owned_tasks e in
              simp e (
                nothing_owned,
                elim (Bool-cases (is_empty l0.owned_tasks)) [
                  | inl e0 ↦ simp e0 refl
                  | inr ne0 ↦ let c = simp ne0 at e in absurd (ground (arith, c))
                ],
              )
          | inr ne ↦ elim (Result-cases r) [
            | inl (n, g) ↦ let c = simp (ne, g) at h in absurd (ground (arith, c))
            | inr (x, g) ↦ let c = simp (ne, g) at h in absurd (ground (arith, c))
          ]
        ]

    run-Drained :
        (fuel : ℕ) (l : Loop K)
        → (run system resume others fuel l).0 ≡ some (ok tt)
        → (run system resume others fuel l).1.stop_requested ≡ false
        → Drained (run system resume others fuel l).1
    unfolding run
    run-Drained zero l h k = absurd (ground (arith, h))
    run-Drained (suc fuel) l h k =
        let next = run_round system resume others l in
        elim (Bool-cases l.stop_requested) [
          | inl e ↦
              let c : l.stop_requested ≡ false = simp (run-stopped fuel l e) at k in
              absurd (ground (arith, c, e))
          | inr e ↦ elim (Option-cases next.0) [
            | inl more ↦ rw (run-more fuel l e more) (
                run-Drained fuel next.1 (rw (run-more fuel l e more) at h)
                  (rw (run-more fuel l e more) at k))
            | inr (r, over) ↦
                let well : some r ≡ some (ok tt) = rw (run-over fuel l r e over) at h in
                rw (run-over fuel l r e over) (run_round-Drained l (over ∙ well))
          ]
        ]

    -- `run` that returns well without a request to stop has emptied the loop and its inbox, and every task
    -- that it held at the start has ended.
    pub run_completes :
        (fuel t : ℕ) (l : Loop K)
        → t ≢ 0
        → Has t l
        → (run system resume others fuel l).0 ≡ some (ok tt)
        → (run system resume others fuel l).1.stop_requested ≡ false
        → let m = (run system resume others fuel l).1 in
          (m.done t ≡ true) × (m.owned_tasks ≡ []) × (m.cross_core_queue ≡ [])
    run_completes fuel t l h k returned going =
        let (owned, inbox) = run-Drained fuel l returned going in
        let kept = run-Has fuel t l h k in
        elim kept [
          | inl d ↦ (d, owned, inbox)
          | inr (inl o) ↦ let o' = rw owned at o in absurd (omega (arith, o'))
          | inr (inr c) ↦ let c' = rw inbox at c in absurd (omega (arith, c'))
        ]
