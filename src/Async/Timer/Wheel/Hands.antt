-- ===== src/Async/Timer/Wheel/Hands.antt =====
-- The hands of the levels of src/async/timer.hpp follow the time.
use rain.Base.{
  ℕ, ◌+◌, ◌*◌, ◌/◌, ◌%◌, ◌≡◌, refl, ◌∙◌, List, [], ◌∷◌, Option, none, some, arith, Option-cases,
  inl, inr, ◌==◌, if◌then◌else◌, Bool-cases, update,
}
use rain.Async.Concepts.{States, Done, is_pending}
use rain.Async.Timer.Slotmap.{TimerEntry, lookup}
use rain.Async.Timer.Wheel.{
  Wheel, Firing, make_wheel, cascade_one, cascade, cascaded, fire_entry, fire_all,
  process_current_slot, tick, resumed, tick_ns, current_ids, take_current,
}
use rain.Async.Timer.Wheel.History.{cascade_one-Cascaded, start-cascaded}

-- Firing leaves the levels and the times alone.
pub record SameLevels (w w' : Wheel) : Type 0 where
  pub levels : w'.levels ≡ w.levels
  pub start : w'.start_time ≡ w.start_time
  pub now : w'.current_time ≡ w.current_time

resumed-SameLevels :
    (done : Done) (handle : Option ℕ) (f : Firing)
    → SameLevels f.wheel (resumed done handle f).wheel
resumed-SameLevels done none f = record { levels = refl; start = refl; now = refl }
resumed-SameLevels done (some h) f = ground arith

fire_entry-SameLevels :
    (done : Done) (id : ℕ) (entry : TimerEntry) (state : Option ℕ) (f : Firing)
    → SameLevels f.wheel (fire_entry done id entry state f).wheel
unfolding fire_entry
fire_entry-SameLevels done id entry none f =
    let s = resumed-SameLevels done entry.handle f in
    record { levels = s.levels; start = s.start; now = s.now }
fire_entry-SameLevels done id entry (some c) f =
    let g : Firing = record f { states = update f.states c entry.completion } in
    let s = resumed-SameLevels done entry.handle g in
    elim (Bool-cases (is_pending (f.states c))) [
      | inl e ↦ rw e (record { levels = s.levels; start = s.start; now = s.now })
      | inr e ↦ rw e (record { levels = refl; start = refl; now = refl })
    ]

pub fire_all-SameLevels :
    (done : Done) (ids : List ℕ) (f : Firing) → SameLevels f.wheel (fire_all done ids f).wheel
unfolding fire_all
fire_all-SameLevels done [] f = record { levels = refl; start = refl; now = refl }
fire_all-SameLevels done (id ∷ ids) f = elim (Option-cases (lookup f.wheel.entries id)) [
  | inl e ↦ rw (e, fire_all) (fire_all-SameLevels done ids f)
  | inr (entry, e) ↦
      let s = fire_entry-SameLevels done id entry entry.state f in
      let t = fire_all-SameLevels done ids (fire_entry done id entry entry.state f) in
      rw (e, fire_all)
        (record { levels = t.levels ∙ s.levels; start = t.start ∙ s.start; now = t.now ∙ s.now })
]

-- After `n` ticks: the time, and the place of each hand. A level's hand has moved on once for each
-- round of the level below that has begun.
pub record InPhase (n : ℕ) (w : Wheel) : Type 0 where
  pub time : w.current_time ≡ w.start_time + n * tick_ns
  pub hand0 : (w.levels 0).current_slot ≡ n % 256
  pub hand1 : (w.levels 1).current_slot ≡ (n + 255) / 256 % 64
  pub hand2 : (w.levels 2).current_slot ≡ (n + 16383) / 16384 % 64
  pub hand3 : (w.levels 3).current_slot ≡ (n + 1048575) / 1048576 % 64
  pub size0 : (w.levels 0).slot_count ≡ 256
  pub size1 : (w.levels 1).slot_count ≡ 64
  pub size2 : (w.levels 2).slot_count ≡ 64
  pub size3 : (w.levels 3).slot_count ≡ 64

-- Which levels cascade in the tick after `n`, from the highest.
pub cascaded_by_hands :
    (n : ℕ) (w : Wheel)
    → (w.levels 0).current_slot ≡ n % 256
    → (w.levels 1).current_slot ≡ (n + 255) / 256 % 64
    → (w.levels 2).current_slot ≡ (n + 16383) / 16384 % 64
    → cascaded w ≡ (
        if n % 256 == 0
        then cascade_one 1 (
            if n % 16384 == 0
            then cascade_one 2 (if n % 1048576 == 0 then cascade_one 3 w else w)
            else w)
        else w)
unfolding cascaded cascade
cascaded_by_hands n w h0 h1 h2 =
    let one : n % 256 ≡ 0 → ((n + 255) / 256 % 64 == 0) ≡ (n % 16384 == 0) = λ h. ground arith in
    let two : n % 16384 ≡ 0 → ((n + 16383) / 16384 % 64 == 0) ≡ (n % 1048576 == 0) =
      λ h. ground arith in
    rw (h0, h1, h2) (ground (arith, one, two))

-- Within the tick after `n`, between the cascades and the firing.
pub record MidTick (n : ℕ) (w : Wheel) : Type 0 where
  pub time : w.current_time ≡ w.start_time + (n + 1) * tick_ns
  pub hand0 : (w.levels 0).current_slot ≡ n % 256
  pub hand1 : (w.levels 1).current_slot ≡ (n + 256) / 256 % 64
  pub hand2 : (w.levels 2).current_slot ≡ (n + 16384) / 16384 % 64
  pub hand3 : (w.levels 3).current_slot ≡ (n + 1048576) / 1048576 % 64
  pub size0 : (w.levels 0).slot_count ≡ 256
  pub size1 : (w.levels 1).slot_count ≡ 64
  pub size2 : (w.levels 2).slot_count ≡ 64
  pub size3 : (w.levels 3).slot_count ≡ 64

-- The hands and sizes of the four levels, and the times, of a wheel on which a level has cascaded.
abbrev Moved : ℕ → Wheel → Wheel → Type 0
Moved level w w' =
    (hand 0 × size 0)
    × (hand 1 × size 1)
    × (hand 2 × size 2)
    × (hand 3 × size 3)
    × (w'.start_time ≡ w.start_time)
    × (w'.current_time ≡ w.current_time)
  where
    hand : ℕ → Type 0
    hand l = (w'.levels l).current_slot ≡ (
        if level == l
        then ((w.levels l).current_slot + 1) % (w.levels l).slot_count
        else (w.levels l).current_slot)

    size : ℕ → Type 0
    size l = (w'.levels l).slot_count ≡ (w.levels l).slot_count

moved : (level : ℕ) (w : Wheel) → Moved level w (cascade_one level w)
moved level w =
    let c = cascade_one-Cascaded level w in
    (
      (c.hands 0, c.sizes 0),
      (c.hands 1, c.sizes 1),
      (c.hands 2, c.sizes 2),
      (c.hands 3, c.sizes 3),
      c.start,
      c.now,
    )

pub cascaded-MidTick :
    (n : ℕ) (w : Wheel)
    → InPhase n w
    → MidTick n (cascaded (record w { current_time = w.current_time + tick_ns }))
cascaded-MidTick n w p =
    let v : Wheel = record w { current_time = w.current_time + tick_ns } in
    let v3 = cascade_one 3 v in
    rw (cascaded_by_hands n v p.hand0 p.hand1 p.hand2) (elim (Bool-cases (n % 256 == 0)) [
      | inr e ↦ rw e (ground (arith, e))
      | inl e ↦ rw e (elim (Bool-cases (n % 16384 == 0)) [
        | inr e1 ↦ rw e1 (ground (arith, e, e1, moved 1 v))
        | inl e1 ↦ rw e1 (elim (Bool-cases (n % 1048576 == 0)) [
          | inr e2 ↦ rw e2 (ground (arith, e1, e2, moved 2 v, moved 1 (cascade_one 2 v)))
          | inl e2 ↦ rw e2 (ground (arith, e2, moved 3 v, moved 2 v3, moved 1 (cascade_one 2 v3)))
        ])
      ])
    ])

-- One tick keeps the time and all hands in phase.
pub tick-InPhase :
    (done : Done) (states : States) (n : ℕ) (w : Wheel)
    → InPhase n w
    → InPhase (n + 1) (tick done states w).wheel
unfolding tick process_current_slot
tick-InPhase done states n w p =
    let c = cascaded (record w { current_time = w.current_time + tick_ns }) in
    let m = cascaded-MidTick n w p in
    let f =
      fire_all-SameLevels done (current_ids 0 c)
        (record { wheel = take_current 0 c; states = states; fired = 0 }) in
    rw (f.levels, f.start, f.now)
      (ground
        (arith, m.time, m.hand0, m.hand1, m.hand2, m.hand3, m.size0, m.size1, m.size2, m.size3))

pub start-tick :
    (done : Done) (states : States) (w : Wheel)
    → (tick done states w).wheel.start_time ≡ w.start_time
unfolding tick process_current_slot
start-tick done states w =
    let c = cascaded (record w { current_time = w.current_time + tick_ns }) in
    (fire_all-SameLevels done (current_ids 0 c)
      (record { wheel = take_current 0 c; states = states; fired = 0 })).start
    ∙ start-cascaded (record w { current_time = w.current_time + tick_ns })

pub make_wheel-InPhase : (now : ℕ) → InPhase 0 (make_wheel now)
unfolding make_wheel
make_wheel-InPhase now = omega arith
