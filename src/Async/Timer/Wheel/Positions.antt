-- ===== src/Async/Timer/Wheel/Positions.antt =====
-- The arithmetic of the places of src/async/timer.hpp: `n` ticks have passed, and a timer is due at tick
-- `d`, both counted from the start of the wheel.
use rain.Base.{
  ℕ, ◌+◌, ◌-◌, ◌*◌, ◌/◌, ◌%◌, ◌≡◌, refl, ap, ◌≤◌, ◌<◌, ◌≢◌, ◌⊎◌, inl, inr, arith, ◌==◌, ltb, ◌&&◌,
  if◌then◌else◌, Bool-cases,
}
use rain.Async.Timer.Wheel.{route}
use rain.Async.Timer.Wheel.Location.{Place, move}

-- The places from which the hands take a timer to its firing at tick `d`. On the two upper levels a
-- timer must not be due one full round of level 0 after a hand of level 2 has moved.
pub data IsDue (n d : ℕ) (p : Place) : Type 0 where
  near : p.0 ≡ 0 → p.1 ≡ d % 256 → n ≤ d → d < n + 256 → IsDue n d p
  middle :
      p.0 ≡ 1
      → p.1 ≡ d / 256 % 64
      → n ≤ d / 256 * 256
      → d / 256 < (n + 255) / 256 + 64
      → IsDue n d p
  far :
      p.0 ≡ 2
      → p.1 ≡ d / 16384 % 64
      → n ≤ d / 16384 * 16384
      → d / 16384 < (n + 16383) / 16384 + 64
      → d % 16384 ≢ 256
      → IsDue n d p
  beyond :
      p.0 ≡ 3 → p.1 ≡ d / 1048576 % 64 → n ≤ d / 1048576 * 1048576 → d % 16384 ≢ 256 → IsDue n d p

-- A timer placed between two ticks, not in the past, is due.
pub route-IsDue :
    (n d : ℕ) → n ≤ d → (d < n + 16384) ⊎ (d % 16384 ≢ 256) → IsDue n d (route (d - n) d)
unfolding route
route-IsDue n d h k = elim (Bool-cases (ltb (d - n) 256)) [
  | inl e ↦ rw e (near refl refl h (ground arith))
  | inr e ↦ rw e (elim (Bool-cases (ltb (d - n) 16384)) [
    | inl e1 ↦ rw e1 (middle refl refl (ground arith) (ground arith))
    | inr e1 ↦ rw e1 (elim (Bool-cases (ltb (d - n) 1048576)) [
      | inl e2 ↦ rw e2 (far refl refl (ground arith) (ground arith) (ground arith))
      | inr e2 ↦ rw e2 (beyond refl refl (ground arith) (ground arith))
    ])
  ])
]

-- Where the cascades of the tick after `n` take a timer.
abbrev pub settle : ℕ → ℕ → Place → Place
settle n d p =
    let target = route (d - (n + 1)) d in
    if n % 256 == 0
    then move 1 (n / 256 % 64) target (
        if n % 16384 == 0
        then move 2 (n / 16384 % 64) target
            (if n % 1048576 == 0 then move 3 (n / 1048576 % 64) target p else p)
        else p)
    else p

-- After the cascades of the tick after `n`: a timer due then is in the slot that fires, and one due
-- later is due in its new place, which is another slot.
abbrev pub Settled : ℕ → ℕ → Place → Type 0
Settled n d q =
    ((d ≡ n) × (q.0 ≡ 0) × (q.1 ≡ n % 256))
    ⊎ ((n < d) × IsDue (n + 1) d q × ((q.0 ≢ 0) ⊎ (q.1 ≢ n % 256)))

route_elsewhere :
    (n d : ℕ)
    → n % 256 ≡ 0
    → n < d
    → (d < n + 256) ⊎ ((n % 16384 ≡ 0) × (d % 16384 ≢ 256))
    → ((route (d - (n + 1)) d).0 ≢ 0) ⊎ ((route (d - (n + 1)) d).1 ≢ n % 256)
unfolding route
route_elsewhere n d h lt k = elim (Bool-cases (ltb (d - (n + 1)) 256)) [
  | inl e ↦ rw e (inr (ground arith))
  | inr e ↦ rw e (inl (ground arith))
]

route_now : (n : ℕ) → route (n - (n + 1)) n ≡ (0, n % 256)
unfolding route
route_now n = ground arith

-- A timer that a cascade places anew.
route-Settled :
    (n d : ℕ)
    → n % 256 ≡ 0
    → n ≤ d
    → (d < n + 256) ⊎ ((n % 16384 ≡ 0) × (d % 16384 ≢ 256))
    → Settled n d (route (d - (n + 1)) d)
route-Settled n d h le k = elim (Bool-cases (d == n)) [
  | inl e ↦
      let d_eq : d ≡ n = ground arith in
      inl (
        d_eq,
        rw d_eq (ap (λ (q : Place). q.0) (route_now n)),
        rw d_eq (ap (λ (q : Place). q.1) (route_now n)),
      )
  | inr e ↦
      let later : n < d = ground arith in
      let soon : (d < n + 1 + 16384) ⊎ (d % 16384 ≢ 256) = ground arith in
      inr (later, route-IsDue (n + 1) d (omega arith) soon, route_elsewhere n d h later k)
]

pub settle-Settled : (n d : ℕ) (p : Place) → n ≤ d → IsDue n d p → Settled n d (settle n d p)
settle-Settled n d p h (near level slot le lt) =
    let stays : settle n d p ≡ p = ground arith in
    rw stays (elim (Bool-cases (d == n)) [
      | inl e ↦ inl (ground arith, ground arith, ground arith)
      | inr e ↦ inr (ground arith, near level slot (ground arith) (omega arith), inr (ground arith))
    ])
settle-Settled n d p h (middle level slot le lt) =
    elim (Bool-cases (n % 256 == 0 && n / 256 % 64 == p.1)) [
      | inl e ↦
          let goes : settle n d p ≡ route (d - (n + 1)) d = ground arith in
          rw goes (route-Settled n d (ground arith) h (inl (ground arith)))
      | inr e ↦
          let stays : settle n d p ≡ p = ground arith in
          rw stays (
            inr (ground arith, middle level slot (ground arith) (ground arith), inl (ground arith)))
    ]
settle-Settled n d p h (far level slot le lt apart) =
    elim (Bool-cases (n % 16384 == 0 && n / 16384 % 64 == p.1)) [
      | inl e ↦
          let goes : settle n d p ≡ route (d - (n + 1)) d = ground arith in
          rw goes (route-Settled n d (ground arith) h (inr (ground arith, apart)))
      | inr e ↦
          let stays : settle n d p ≡ p = ground arith in
          rw stays (
            inr (
              ground arith,
              far level slot (ground arith) (ground arith) apart,
              inl (ground arith),
            ))
    ]
settle-Settled n d p h (beyond level slot le apart) =
    elim (Bool-cases (n % 1048576 == 0 && n / 1048576 % 64 == p.1)) [
      | inl e ↦
          let goes : settle n d p ≡ route (d - (n + 1)) d = ground arith in
          rw goes (route-Settled n d (ground arith) h (inr (ground arith, apart)))
      | inr e ↦
          let stays : settle n d p ≡ p = ground arith in
          rw stays (inr (ground arith, beyond level slot (ground arith) apart, inl (ground arith)))
    ]
