-- ===== src/Runtime/ThreadPool/Answers.antt =====
-- What the channel of src/runtime/thread_pool.hpp answers callers and workers.
use rain.Base.{
  ◌⊎◌, ℕ, ◌≡◌, refl, ◌∙◌, ap, inl, inr, ◌&&◌, leb, ltb, true, false, List, [], ◌∷◌, Option, none,
  some, arith, length, Bool-cases, Option-cases, sym,
}
use rain.Core.{SystemError, Result, ok, err}
use rain.Sync.Channel.{Channel, try_send, recv, try_recv, can_recv, push}
use rain.Sync.Channel.Fifo.{try_send-send}
use rain.Runtime.ThreadPool.{Worker, exited, busy, Pool, answered, pool_submit, worker_take}

-- How a channel answers a job that it is sent.
abbrev pub Sent : ℕ → Channel ℕ → Result (Unit {0}) → Channel ℕ → Type 0
Sent job c r d =
    ((r ≡ ok tt) × (c.closed ≡ false) × (d ≡ push c job))
    ⊎ ((e : SystemError) × (r ≡ err e) × (d ≡ c))

pub try_send-Sent : (job : ℕ) (c : Channel ℕ) → Sent job c (try_send job c).0 (try_send job c).1
unfolding try_send
try_send-Sent job c = elim (Bool-cases c.closed) [
  | inl e ↦ simp e (inr (_, refl, refl))
  | inr e ↦ elim (Bool-cases (ltb 0 c.capacity && leb c.capacity (length c.queue))) [
    | inl full ↦ simp (e, full) (inr (_, refl, refl))
    | inr room ↦ simp (e, room) (inl (refl, refl, refl))
  ]
]

pub submit-Sent :
    (job : ℕ) (p q : Pool) (r : Result (Unit {0}))
    → pool_submit job p ≡ some (r, q)
    → (d : Channel ℕ) × Sent job p.tasks r d × (q ≡ answered job p r d)
unfolding pool_submit
submit-Sent job p q r h = elim (try_send-send job p.tasks) [
  | inl e ↦
      let t = try_send job p.tasks in
      let h' : some (t.0, answered job p t.0 t.1) ≡ some (r, q) = rw (pool_submit, e) at h in
      let same : t.0 ≡ r = ground (arith, h') in
      let after : answered job p t.0 t.1 ≡ q = ground (arith, h') in
      (t.1, rw⁻¹ same (try_send-Sent job p.tasks), sym after ∙ ap (λ x. answered job p x t.1) same)
  | inr (e, full) ↦
      let h' : none ≡ some (r, q) = rw (pool_submit, e) at h in absurd (ground (arith, h'))
]

List-cases : (xs : List ℕ) → (xs ≡ []) ⊎ ((x : ℕ) × (ys : List ℕ) × (xs ≡ x ∷ ys))
List-cases [] = inl refl
List-cases (x ∷ xs) = inr (x, xs, refl)

-- What a worker gets from the channel.
recv-lem :
    (c d : Channel ℕ) (o : Option ℕ)
    → recv c ≡ some (o, d)
    → ((o ≡ none) × (c.closed ≡ true) × (c.queue ≡ []) × (d ≡ c))
      ⊎ ((job : ℕ) × (o ≡ some job) × (c.queue ≡ job ∷ d.queue) × (d.closed ≡ c.closed))
unfolding recv try_recv
recv-lem c d o h = elim (Bool-cases (can_recv c)) [
  | inr e ↦ let h' : none ≡ some (o, d) = simp e at h in absurd (ground (arith, h'))
  | inl e ↦ elim (List-cases c.queue) [
    | inl none_left ↦ inl (
      ground (arith, h, e, none_left),
      ground (arith, e, none_left),
      none_left,
      ground (arith, h, e, none_left),
    )
    | inr (job, jobs, more) ↦
        inr
          (job, ground (arith, h, e, more), ground (arith, h, e, more), ground (arith, h, e, more))
  ]
]

-- What a worker does with it.
pub worker_take-lem :
    (p q : Pool) (w : Worker)
    → worker_take p ≡ some (w, q)
    → ((w ≡ exited) × (p.tasks.closed ≡ true) × (p.tasks.queue ≡ []) × (q ≡ p))
      ⊎ ((job : ℕ) × (d : Channel ℕ) × (w ≡ busy job)
          × (p.tasks.queue ≡ job ∷ d.queue)
          × (d.closed ≡ p.tasks.closed)
          × (q ≡ record p { tasks = d }))
unfolding worker_take
worker_take-lem p q w h = elim (Option-cases (recv p.tasks)) [
  | inl e ↦ let h' : none ≡ some (w, q) = rw (worker_take, e) at h in absurd (ground (arith, h'))
  | inr ((o, d), e) ↦ elim (recv-lem p.tasks d o e) [
    | inl (nothing, closed, drained, same) ↦
        let h' : some (exited, record p { tasks = d }) ≡ some (w, q) =
          rw (worker_take, e, nothing) at h in
        let left : exited ≡ w = ground (arith, h') in
        let after : record p { tasks = d } ≡ q = ground (arith, h') in
        inl (sym left, closed, drained, sym after ∙ ap (λ c. record p { tasks = c }) same)
    | inr (job, some_job, front, closed) ↦
        let h' : some (busy job, record p { tasks = d }) ≡ some (w, q) =
          rw (worker_take, e, some_job) at h in
        let taken : busy job ≡ w = ground (arith, h') in
        let after : record p { tasks = d } ≡ q = ground (arith, h') in
        inr (job, d, sym taken, front, closed, sym after)
  ]
]
