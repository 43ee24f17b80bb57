-- ===== src/Sync/SpinLock/Tests.antt =====
-- A run of the spin lock of src/sync/spinlock.hpp.
use rain.Base.{ℕ, ◌≡◌, refl, ◌≢◌, false, arith}
use rain.Sync.SpinLock.{
  Lock, outside, spinning, inside, try_lock, tries, here, next, mutual_exclusion,
}

abbrev free : Lock
free = record { flag = false; place = λ t. outside }

abbrev taken : Lock
taken = try_lock 4 (try_lock 3 free)

taken_by_three : (taken.place 3 ≡ inside) × (taken.place 4 ≡ spinning)
unfolding try_lock
taken_by_three = (refl, refl)

three_inside : taken.place 3 ≡ inside
three_inside = taken_by_three.0

not_yet : (t : ℕ) → free.place t ≢ inside
not_yet t = ground arith

four_outside : (try_lock 3 free).place 4 ≢ inside
unfolding try_lock
four_outside = ground arith

mutual_exclusion_example :
    ((taken.place 4 ≡ inside → ◌≡◌ {A = ℕ} 3 4) × ((try_lock 4 taken).place 4 ≡ spinning))
mutual_exclusion_example =
    mutual_exclusion 3 4 not_yet (next (next here (tries 3 (not_yet 3))) (tries 4 four_outside))
      three_inside
