-- ===== src/Async/Timer/Wheel/Issued.antt =====
-- The slots of src/async/timer.hpp hold ids that were handed out, and no others.
use rain.Base.{
  ℕ, ◌+◌, ◌≡◌, ap, ◌<◌, ◌≢◌, ◌⊎◌, inl, inr, arith, ◌==◌, leb, ltb, ◌&&◌, Bool-cases, List, [], ◌∷◌,
  Option, none, Option-cases, count, ==→eq, zero, suc,
}
use rain.Async.Concepts.{States, Done, WaitState}
use rain.Async.Timer.Slotmap.{Entries, lookup, id_gen, id_index, acquire}
use rain.Async.Timer.Slotmap.Inv.{IsSound, HasRoom}
use rain.Async.Timer.Slotmap.Lookup.{IsIssued, IsLater, acquire-issues, acquire-IsLater}
use rain.Async.Timer.Wheel.{
  Wheel, place, replace_all, cascade_one, cascade, cascaded, tick, process_current_slot,
  current_ids, take_current, schedule_at, num_levels, tick_ns, timer_entry,
}
use rain.Async.Timer.Wheel.History.{entries-cascade}
use rain.Async.Timer.Wheel.Hands.{fire_all-SameLevels}
use rain.Async.Timer.Wheel.Location.{slot_of, count-place}

-- An id that is in no slot.
abbrev pub IsNowhere : ℕ → Wheel → Type 0
IsNowhere id w = (l s : ℕ) → count id (slot_of w l s) ≡ 0

place-IsNowhere :
    (id j deadline : ℕ) (w : Wheel) → j ≢ id → IsNowhere id w → IsNowhere id (place j deadline w)
place-IsNowhere id j deadline w ne h l s = ground (arith, count-place id j deadline w l s, h l s)

-- An id that is not valid is not placed anew.
replace_all-IsNowhere :
    (ids : List ℕ) (id : ℕ) (w : Wheel)
    → lookup w.entries id ≡ none
    → IsNowhere id w
    → IsNowhere id (replace_all ids w)
unfolding replace_all
replace_all-IsNowhere [] id w gone h = h
replace_all-IsNowhere (j ∷ ids) id w gone h = elim (Option-cases (lookup w.entries j)) [
  | inl e ↦ rw (e, replace_all) (replace_all-IsNowhere ids id w gone h)
  | inr (entry, e) ↦
      let ne : j ≢ id = λ eq. cc (ap (lookup w.entries) eq) in
      rw (e, replace_all)
        (replace_all-IsNowhere ids id (place j entry.deadline w) (unfold place in gone)
          (place-IsNowhere id j entry.deadline w ne h))
]

cascade_one-IsNowhere :
    (level id : ℕ) (w : Wheel)
    → lookup w.entries id ≡ none
    → IsNowhere id w
    → IsNowhere id (cascade_one level w)
unfolding cascade_one
cascade_one-IsNowhere level id w gone h l s = ground (
  arith,
  replace_all-IsNowhere (current_ids level w) id (take_current level w) gone
      (λ l s. ground (arith, h l s)) l s,
)

cascade-IsNowhere :
    (fuel level id : ℕ) (w : Wheel)
    → lookup w.entries id ≡ none
    → IsNowhere id w
    → IsNowhere id (cascade fuel level w)
unfolding cascade
cascade-IsNowhere zero level id w gone h = h
cascade-IsNowhere (suc fuel) level id w gone h =
    let above = cascade fuel (level + 1) w in
    let up = (w.levels level).current_slot == 0 && ltb (level + 1) num_levels in
    elim (Bool-cases (leb num_levels level)) [
      | inl top ↦ rw top h
      | inr below ↦ rw below (elim (Bool-cases up) [
        | inl e ↦ rw e (
            cascade_one-IsNowhere level id above (rw (entries-cascade fuel (level + 1) w) gone)
              (cascade-IsNowhere fuel (level + 1) id w gone h))
        | inr e ↦ rw e (cascade_one-IsNowhere level id w gone h)
      ])
    ]

cascaded-IsNowhere :
    (id : ℕ) (w : Wheel) → lookup w.entries id ≡ none → IsNowhere id w → IsNowhere id (cascaded w)
unfolding cascaded
cascaded-IsNowhere id w gone h = elim (Bool-cases ((w.levels 0).current_slot == 0)) [
  | inl e ↦ rw e (cascade-IsNowhere 3 1 id w gone h)
  | inr e ↦ rw e h
]

tick-IsNowhere :
    (done : Done) (states : States) (id : ℕ) (w : Wheel)
    → lookup w.entries id ≡ none
    → IsNowhere id w
    → IsNowhere id (tick done states w).wheel
unfolding tick process_current_slot
tick-IsNowhere done states id w gone h l s =
    let c = cascaded (record w { current_time = w.current_time + tick_ns }) in
    let f =
      fire_all-SameLevels done (current_ids 0 c)
        (record { wheel = take_current 0 c; states = states; fired = 0 }) in
    let h' = cascaded-IsNowhere id (record w { current_time = w.current_time + tick_ns }) gone h in
    rw f.levels (ground (arith, h' l s))

-- Every id in a slot was handed out.
abbrev pub OnlyIssued : Wheel → Type 0
OnlyIssued w = (id : ℕ) → IsNowhere id w ⊎ IsIssued id w.entries

unissued_gone : (id : ℕ) (e : Entries) → IsSound e → ¬ IsIssued id e → lookup e id ≡ none
unfolding lookup
unissued_gone id e s h =
    let old : (e.slotmap (id_index id)).generation < id_gen id = omega (arith, h) in
    ground (arith, old)

IsIssued-or_not : (id : ℕ) (e : Entries) → IsIssued id e ⊎ (¬ IsIssued id e)
IsIssued-or_not id e = grind arith

pub tick-OnlyIssued :
    (done : Done) (states : States) (w : Wheel)
    → IsSound w.entries
    → IsLater w.entries (tick done states w).wheel.entries
    → OnlyIssued w
    → OnlyIssued (tick done states w).wheel
tick-OnlyIssued done states w s l h id = elim (IsIssued-or_not id w.entries) [
  | inl issued ↦ inr (omega (arith, issued, l.grows (id_index id)))
  | inr never ↦ elim (h id) [
    | inl nowhere ↦
        inl (tick-IsNowhere done states id w (unissued_gone id w.entries s never) nowhere)
    | inr issued ↦ absurd (never issued)
  ]
]

pub schedule_at-OnlyIssued :
    (deadline : ℕ) (handle state : Option ℕ) (completion : WaitState) (w : Wheel)
    → HasRoom w.entries
    → IsSound w.entries
    → OnlyIssued w
    → OnlyIssued (schedule_at deadline handle state completion w).1
unfolding schedule_at place
schedule_at-OnlyIssued deadline handle state completion w r s h id =
    let make = timer_entry deadline handle state completion in
    let w' : Wheel = record w { entries = (acquire w.entries make).1 } in
    let new = (acquire w.entries make).0 in
    elim (Bool-cases (new == id)) [
      | inl e ↦ inr (rw (← ==→eq new id e) (acquire-issues w.entries make r s).1)
      | inr ne ↦ elim (h id) [
        | inl nowhere ↦ inl (place-IsNowhere id new deadline w' (ground arith) nowhere)
        | inr issued ↦
            inr (omega (arith, issued, (acquire-IsLater w.entries make r s).grows (id_index id)))
      ]
    ]
