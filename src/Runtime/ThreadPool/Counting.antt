-- ===== src/Runtime/ThreadPool/Counting.antt =====
-- Counting the workers of src/runtime/thread_pool.hpp: those that run a job, and those that have left.
use rain.Base.{
  ℕ, zero, suc, ◌+◌, ◌≡◌, refl, true, List, [], ◌∷◌, ◌++◌, arith, ◌==◌, if◌then◌else◌, length,
}
use rain.Runtime.ThreadPool.{Worker, idle, exited, busy, idle_workers, joined}

-- How many workers run a job, and how many have left.
abbrev pub running : ℕ → List Worker → ℕ
running j [] = 0
running j (idle ∷ ws) = running j ws
running j (exited ∷ ws) = running j ws
running j (busy k ∷ ws) = if k == j then suc (running j ws) else running j ws

abbrev pub left : List Worker → ℕ
left [] = 0
left (exited ∷ ws) = suc (left ws)
left (idle ∷ ws) = left ws
left (busy k ∷ ws) = left ws

pub running-append :
    (j : ℕ) (ws vs : List Worker) → running j (ws ++ vs) ≡ running j ws + running j vs
running-append j [] vs = omega arith
running-append j (idle ∷ ws) vs = running-append j ws vs
running-append j (exited ∷ ws) vs = running-append j ws vs
running-append j (busy k ∷ ws) vs = ground (arith, running-append j ws vs)

pub left-append : (ws vs : List Worker) → left (ws ++ vs) ≡ left ws + left vs
left-append [] vs = omega arith
left-append (idle ∷ ws) vs = left-append ws vs
left-append (exited ∷ ws) vs = omega (arith, left-append ws vs)
left-append (busy k ∷ ws) vs = left-append ws vs

pub running-idle_workers : (j n : ℕ) → running j (idle_workers n) ≡ 0
running-idle_workers j zero = refl
running-idle_workers j (suc n) = running-idle_workers j n

pub left-idle_workers : (n : ℕ) → left (idle_workers n) ≡ 0
left-idle_workers zero = refl
left-idle_workers (suc n) = left-idle_workers n

-- Workers that have all left run nothing.
pub joined-lem :
    (j : ℕ) (ws : List Worker) → joined ws ≡ true → (running j ws ≡ 0) × (left ws ≡ length ws)
joined-lem j [] h = (refl, refl)
joined-lem j (exited ∷ ws) h = let (a, b) = joined-lem j ws h in (a, omega (arith, b))
joined-lem j (idle ∷ ws) h = absurd (ground (arith, h))
joined-lem j (busy k ∷ ws) h = absurd (ground (arith, h))
