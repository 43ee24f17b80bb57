-- ===== src/Runtime/Executor/Made.antt =====
-- The descriptors of the event loops that `create` of src/runtime/executor.hpp makes.
use rain.Base.{
  ap, ap₂, ◌∙◌, update_self, ℕ, zero, suc, ◌+◌, ◌-◌, ◌≤◌, ◌<◌, ◌≡◌, refl, ◌⊎◌, inl, inr, List,
  arith, ◌==◌, update, false, Bool-cases,
}
use rain.Core.{Result, ok, err, SystemError}
use rain.Async.Concepts.{States}
use rain.Async.Loop.{LoopSystem, Loop, with_kernel, create, destroy}
use rain.Async.Loop.Descriptors.{Counts, create-balanced, held_one}
use rain.Async.Loop.Moves.{move_loop, Owns, destroy-left, move-Owns, create-Owns, destroy-Owns}
use rain.Runtime.Executor.{Executor, destroy_from, create_loops, create_executor}

-- The descriptors of `n` loops from `i` on, at `d`.
abbrev pub span : {K : Type 0} → ℕ → ℕ → ℕ → (ℕ → Loop K) → ℕ
span d zero i loops = 0
span d (suc n) i loops = held_one d (loops i) + span d n (suc i) loops

span-append :
    {K : Type 0} (d n i : ℕ) (loops : ℕ → Loop K)
    → span d (suc n) i loops ≡ span d n i loops + held_one d (loops (i + n))
span-append d zero i loops = let z : i + 0 ≡ i = omega arith in rw z (omega arith)
span-append d (suc n) i loops =
    let rest = span-append d n (suc i) loops in
    let z : i + suc n ≡ suc i + n = omega arith in rw z (omega (arith, rest))

span-update :
    {K : Type 0} (d n i j : ℕ) (l : Loop K) (loops : ℕ → Loop K)
    → i + n ≤ j
    → span d n i (update loops j l) ≡ span d n i loops
span-update d zero i j l loops le = refl
span-update d (suc n) i j l loops le =
    let rest = span-update d n (suc i) j l loops (omega (arith, le)) in
    let other : j == i ≡ false = ground (arith, le) in rw (other, rest) refl

span-more :
    {K : Type 0} (d i : ℕ) (l : Loop K) (loops : ℕ → Loop K)
    → span d (suc i) 0 (update loops i l) ≡ span d i 0 loops + held_one d l
span-more d i l loops =
    let z : 0 + i ≡ i = omega arith in
    let here : update loops i l (0 + i) ≡ l = rw z (update_self loops i l) in
    span-append d i 0 (update loops i l)
    ∙ ap₂ (λ x y. x + held_one d y) (span-update d i 0 i l loops (omega arith)) here

held-moved : {K : Type 0} (d : ℕ) (l : Loop K) → held_one d (move_loop l).0 ≡ held_one d l
unfolding move_loop
held-moved d l = refl

module _ {K : Type 0} (system : LoopSystem K) (d : ℕ) (opened : K → ℕ)
    (counts : Counts system d opened) where
  abbrev OwnsBetween : ℕ → ℕ → (ℕ → Loop K) → Type 0
  OwnsBetween i n loops = (j : ℕ) → i ≤ j → j < n → Owns (loops j)

  destroy_from-counts :
      (n i : ℕ) (loops : ℕ → Loop K) (k : K)
      → OwnsBetween i (i + n) loops
      → opened (destroy_from system n i loops k) ≡ opened k - span d n i loops
  unfolding destroy_from
  destroy_from-counts zero i loops k own = omega arith
  destroy_from-counts (suc n) i loops k own =
      let k1 = destroy system (with_kernel (loops i) k) in
      let one =
        destroy-Owns system d opened counts (loops i) k (own i (omega arith) (omega arith)) in
      let rest =
        destroy_from-counts n (suc i) loops k1
          (λ j a b. own j (omega (arith, a)) (omega (arith, b))) in
      omega (arith, one, rest)

  update-Owns :
      (i : ℕ) (l : Loop K) (loops : ℕ → Loop K)
      → Owns l
      → OwnsBetween 0 i loops
      → OwnsBetween 0 (suc i) (update loops i l)
  update-Owns i l loops own before j a b = elim (Bool-cases (i == j)) [
    | inl e ↦ rw e own
    | inr e ↦ rw e (before j a (ground (arith, b, e)))
  ]

  create_loops-balanced :
      (states : States) (results : ℕ → Result ℕ) (n i : ℕ) (loops : ℕ → Loop K) (k : K)
      → OwnsBetween 0 i loops
      → let (r, k') = create_loops system states results n i loops k in
        ((x : SystemError) × (r ≡ err x) × (opened k' ≡ opened k - span d i 0 loops))
        ⊎ ((made : ℕ → Loop K) × (r ≡ ok made)
            × OwnsBetween 0 (i + n) made
            × (opened k' + span d i 0 loops ≡ opened k + span d (i + n) 0 made))
  unfolding create_loops
  create_loops-balanced states results zero i loops k own =
      let z : i + 0 ≡ i = omega arith in
      inr (loops, refl, λ j a b. own j a (omega (arith, b)), rw z refl)
  create_loops-balanced states results (suc n) i loops k own =
      let k1 = (create system states results k).1 in
      elim (create-balanced system d opened counts states results k) [
        | inl (x, e, same) ↦
            let closed = destroy_from-counts i 0 loops k1 (λ j a b. own j a (omega (arith, b))) in
            rw (create_loops, e) (inl (x, refl, omega (arith, closed, same)))
        | inr (l, e, two, at, back) ↦
            let taken = (move_loop l).0 in
            let longer : span d (suc i) 0 (update loops i taken) ≡ span d i 0 loops + held_one d l =
              span-more d i taken loops ∙ ap (λ x. span d i 0 loops + x) (held-moved d l) in
            let owns = move-Owns system l (create-Owns system states results k l e) in
            let gone = destroy-left system l k1 in
            let rest =
              create_loops-balanced states results n (suc i) (update loops i (move_loop l).0) k1
                (update-Owns i (move_loop l).0 loops owns own) in
            rw (create_loops, e, gone)
              (elim rest [
                | inl (x, e', c) ↦ inl (x, e', omega (arith, c, two, longer))
                | inr (made, e', all, c) ↦
                    let z : i + suc n ≡ suc i + n = omega arith in
                    inr (
                      made,
                      e',
                      λ j a b. all j a (omega (arith, b)),
                      rw z (omega (arith, c, two, longer)),
                    )
              ])
      ]

  -- `create` of an executor, at any descriptor `d`. Where it fails, `d` is open if it was before, however many
  -- event loops had been made by then; where it succeeds, the two descriptors of each core's loop are open
  -- besides, and the destructors of the loops close these and leave every other as it was.
  pub create_executor-balanced :
      (states : States) (results : ℕ → Result ℕ) (unused : ℕ → Loop K) (registry : List ℕ)
      (num_cores : ℕ) (k : K)
      → let (r, k') = create_executor system states results unused registry num_cores k in
        ((x : SystemError) × (r ≡ err x) × (opened k' ≡ opened k))
        ⊎ ((e : Executor K) × (r ≡ ok e)
            × (e.core_count ≡ num_cores)
            × (e.kernel ≡ k')
            × (opened k' ≡ opened k + span d num_cores 0 e.loops)
            × (opened (destroy_from system e.core_count 0 e.loops k') ≡ opened k))
  unfolding create_executor
  create_executor-balanced states results unused registry num_cores k =
      elim (create_loops-balanced states results num_cores 0 unused k
        (λ j a b. absurd (omega (arith, b)))) [
          | inl (x, e, c) ↦ rw (create_executor, e) (inl (x, refl, omega (arith, c)))
          | inr (made, e, own, c) ↦
              let k' = (create_loops system states results num_cores 0 unused k).1 in
              let z : 0 + num_cores ≡ num_cores = omega arith in
              let c' : opened k' ≡ opened k + span d num_cores 0 made =
                let h = rw z at c in omega (arith, h) in
              let closed =
                destroy_from-counts num_cores 0 made k' (λ j a b. own j a (omega (arith, b))) in
              rw (create_executor, e) (inr (_, refl, refl, refl, c', omega (arith, c', closed)))
        ]
