-- ===== src/Sync/SpinLock.antt =====
-- src/sync/spinlock.hpp: the spin lock under every interleaving of its threads. `flag_` is the atomic
-- flag; `place` says where each thread stands.
mod Tests
use rain.Base.{
  ℕ, ◌≡◌, refl, ◌≢◌, ◌⊎◌, inl, inr, Bool, true, false, List, [], ◌∷◌, Option, none, some, arith,
  ◌==◌, if◌then◌else◌, update, update_self,
}

-- Where a thread stands: outside, in the loop of `lock()`, or past it.
pub data Place : Type 0 where
  outside spinning inside : Place

pub record Lock : Type 0 where
  pub flag : Bool
  pub place : ℕ → Place

-- `flag_.test_and_set`, once: the loop of `lock()` ends when the old value was false.
unfoldable pub try_lock : ℕ → Lock → Lock
try_lock t l =
    if l.flag
    then record l { place = update l.place t spinning }
    else record { flag = true; place = update l.place t inside }

-- `flag_.clear`.
unfoldable pub unlock : ℕ → Lock → Lock
unlock t l = record { flag = false; place = update l.place t outside }

-- A thread spins or enters from outside or from the loop, and only the one inside unlocks
-- (`LockGuard` pairs the calls).
pub data Step (l : Lock) : Lock → Type 0 where
  tries : (t : ℕ) → l.place t ≢ inside → Step l (try_lock t l)
  leaves : (t : ℕ) → l.place t ≡ inside → Step l (unlock t l)

pub data Reach (l : Lock) : Lock → Type 0 where
  here : Reach l l
  next : {m n : Lock} → Reach l m → Step m n → Reach l n

-- The flag is set while a thread is inside, and at most one thread is.
pub record IsExclusive (l : Lock) : Type 0 where
  pub flagged : (t : ℕ) → l.place t ≡ inside → l.flag ≡ true
  pub alone : (t u : ℕ) → l.place t ≡ inside → l.place u ≡ inside → t ≡ u

try_lock-IsExclusive :
    (t : ℕ) (l : Lock) → l.place t ≢ inside → IsExclusive l → IsExclusive (try_lock t l)
unfolding try_lock
try_lock-IsExclusive t l out w = record {
  flagged = λ u h. ground (arith, w.flagged u);
  alone = λ u v h k. ground (arith, w.flagged u, w.flagged v, w.alone u v);
}

unlock-IsExclusive :
    (t : ℕ) (l : Lock) → l.place t ≡ inside → IsExclusive l → IsExclusive (unlock t l)
unfolding unlock
unlock-IsExclusive t l inn w = record {
  flagged = λ u h. ground (arith, w.alone u t);
  alone = λ u v h k. ground (arith, w.alone u v);
}

Reach-IsExclusive : {l m : Lock} → IsExclusive l → Reach l m → IsExclusive m
Reach-IsExclusive w here = w
Reach-IsExclusive w (next r (tries t out)) = try_lock-IsExclusive t _ out (Reach-IsExclusive w r)
Reach-IsExclusive w (next r (leaves t inn)) = unlock-IsExclusive t _ inn (Reach-IsExclusive w r)

-- Mutual exclusion: in every state that the threads reach from one where no thread is past `lock()`,
-- two threads past `lock()` are the same thread, and while one is there `try_lock` keeps others out.
pub mutual_exclusion :
    {l m : Lock} (t u : ℕ)
    → ((v : ℕ) → l.place v ≢ inside)
    → Reach l m
    → m.place t ≡ inside
    → ((m.place u ≡ inside → t ≡ u) × ((try_lock u m).place u ≡ spinning))
unfolding try_lock
mutual_exclusion {l} {m} t u none_in r h =
    let w =
      Reach-IsExclusive
        (record {
          flagged = λ v k. elim (none_in v k) [ ];
          alone = λ v v' k k'. elim (none_in v k) [ ];
        })
        r in
    (w.alone t u h, ground (arith, w.flagged t h, update_self m.place u spinning))
