-- ===== src/Async/Loop/Acts.antt =====
-- What coroutines and other threads may do to the event loop of src/async/event_loop.hpp, and the tasks that it
-- holds meanwhile.
use rain.Base.{
  is_negative, ℕ, ◌≤◌, ◌<◌, ◌≡◌, ◌≢◌, refl, ◌⊎◌, inl, inr, true, false, ◌||◌, List, [], ◌∷◌, arith,
  ◌==◌, update, count, count-append, Bool-cases,
}
use rain.Async.Concepts.{Done}
use rain.Async.Race.{Core}
use rain.Async.Loop.{
  LoopSystem, Loop, live, enqueue, spawn, spawn_service, notify, submit, request_stop,
  cleanup_completed, drain_cross_core,
}

-- A coroutine frame that has ended, or a task that the loop or its inbox holds.
abbrev pub Has : {K : Type 0} → ℕ → Loop K → Type 0
Has t l = (l.done t ≡ true) ⊎ (0 < count t l.owned_tasks) ⊎ (0 < count t l.cross_core_queue)

live-keeps :
    (done : Done) (t : ℕ) (ts : List ℕ)
    → t ≢ 0
    → done t ≡ false
    → count t (live done ts) ≡ count t ts
live-keeps done t [] h k = refl
live-keeps done t (x ∷ xs) h k =
    let rest = live-keeps done t xs h k in
    elim (Bool-cases (x == t)) [
      | inl e ↦
          let same : x ≡ t = ground (arith, e) in
          let alive : (x == 0 || done x) ≡ false = rw same (ground (arith, h, k)) in
          rw alive (ground (arith, rest))
      | inr e ↦ elim (Bool-cases (x == 0 || done x)) [
        | inl dead ↦ rw (dead, e) rest
        | inr alive ↦ rw alive (ground (arith, rest))
      ]
    ]

module _ {K : Type 0} (system : LoopSystem K) where
  -- What running coroutines and other threads may do to the loop, and what both may do in any order.
  pub data Act (l : Loop K) : Loop K → Type 0 where
    spawns : (h : ℕ) → Act l (spawn h l)
    serves : (h : ℕ) → Act l (spawn_service h l)
    submits : (h : ℕ) → Act l (submit system h l).1
    notifies : (h : ℕ) → Act l (notify h l)
    ends : (h : ℕ) → Act l (record l { done = update l.done h true })
    stops : Act l (request_stop system l)
    graces : Act l (record l { graceful_requested = true })
    waits : (core : Core K) → Act l (record l { core = core })

  pub data Acts (l : Loop K) : Loop K → Type 0 where
    nothing : Acts l l
    and_act : {m n : Loop K} → Acts l m → Act m n → Acts l n

  -- A loop that has at least what another has.
  Has-more :
      (t : ℕ) (l m : Loop K)
      → (l.done t ≡ true → m.done t ≡ true)
      → count t l.owned_tasks ≤ count t m.owned_tasks
      → count t l.cross_core_queue ≤ count t m.cross_core_queue
      → Has t l
      → Has t m
  Has-more t l m d o c (inl k) = inl (d k)
  Has-more t l m d o c (inr (inl k)) = inr (inl (omega (arith, k, o)))
  Has-more t l m d o c (inr (inr k)) = inr (inr (omega (arith, k, c)))

  Act-Has : (t : ℕ) {l m : Loop K} → Act l m → Has t l → Has t m
  unfolding spawn spawn_service enqueue submit notify request_stop
  Act-Has t {l} (spawns h) k =
      Has-more t l (spawn h l) (λ d. d) (omega (arith, count-append t l.owned_tasks (h ∷ [])))
        (omega arith) k
  Act-Has t {l} (serves h) k =
      Has-more t l (spawn_service h l) (λ d. d)
        (omega (arith, count-append t l.owned_tasks (h ∷ []))) (omega arith) k
  Act-Has t {l} (submits h) k =
      Has-more t l (submit system h l).1 (λ d. d) (omega arith)
        (omega (arith, count-append t l.cross_core_queue (h ∷ []))) k
  Act-Has t (notifies h) k = k
  Act-Has t {l} (ends h) k =
      Has-more t l (record l { done = update l.done h true }) (λ d. ground (arith, d)) (omega arith)
        (omega arith) k
  Act-Has t {l} stops k = elim (Bool-cases (is_negative l.cross_core_fd)) [
    | inl e ↦ rw e k
    | inr e ↦ rw e k
  ]
  Act-Has t graces k = k
  Act-Has t (waits core) k = k

  pub Acts-Has : (t : ℕ) {l m : Loop K} → Acts l m → Has t l → Has t m
  Acts-Has t nothing k = k
  Acts-Has t (and_act before a) k = Act-Has t a (Acts-Has t before k)

  pub cleanup-Has : (t : ℕ) (l : Loop K) → t ≢ 0 → Has t l → Has t (cleanup_completed l)
  unfolding cleanup_completed
  cleanup-Has t l h k = elim (Bool-cases (l.done t)) [
    | inl e ↦ inl e
    | inr e ↦
        let same = live-keeps l.done t l.owned_tasks h e in
        elim k [
          | inl d ↦ inl d
          | inr (inl o) ↦ inr (inl (omega (arith, o, same)))
          | inr (inr c) ↦ inr (inr c)
        ]
  ]

  pub drain-Has : (t : ℕ) (l : Loop K) → Has t l → Has t (drain_cross_core system l)
  unfolding drain_cross_core
  drain-Has t l k =
      let both = count-append t l.owned_tasks l.cross_core_queue in
      elim k [
        | inl d ↦ inl d
        | inr (inl o) ↦ inr (inl (omega (arith, o, both)))
        | inr (inr c) ↦ inr (inl (omega (arith, c, both)))
      ]
