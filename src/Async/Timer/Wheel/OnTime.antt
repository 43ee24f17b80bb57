-- ===== src/Async/Timer/Wheel/OnTime.antt =====
-- One tick of src/async/timer.hpp, seen by one timer.
use rain.Base.{
  ℕ, ◌+◌, ◌-◌, ◌*◌, ◌/◌, ◌%◌, ◌≡◌, refl, ap₂, ◌∙◌, ◌≤◌, ◌<◌, ◌≢◌, ◌⊎◌, inl, inr, arith, ◌==◌,
  Bool-cases, List, [], ◌∷◌, none, some, Option-cases, count, ==→eq, false,
}
use rain.Async.Concepts.{States, Done}
use rain.Async.Timer.Slotmap.{TimerEntry, Entries, lookup, release}
use rain.Async.Timer.Slotmap.Lookup.{lookup-release}
use rain.Async.Timer.Wheel.{
  Wheel, Firing, route, ticks_between, cascade_one, cascaded, fire_entry, fire_all, tick, tick_ns,
  process_current_slot, current_ids, take_current, advance_hand,
}
use rain.Async.Timer.Wheel.History.{
  cascade_one-Cascaded, entries-fire_entry, fire_all-keeps, start-cascaded,
}
use rain.Async.Timer.Wheel.Hands.{InPhase, cascaded_by_hands, cascaded-MidTick, fire_all-SameLevels}
use rain.Async.Timer.Wheel.Location.{Place, IsAt, move, routed, cascade_one-IsAt}
use rain.Async.Timer.Wheel.Positions.{IsDue, settle, settle-Settled}

-- A valid timer, where it stands, and where `place` would put it now.
pub record IsPlaced (id : ℕ) (entry : TimerEntry) (target p : Place) (w : Wheel) : Type 0 where
  pub found : lookup w.entries id ≡ some entry
  pub at : IsAt id p w
  pub aim : routed w entry.deadline ≡ target

cascade_one-IsPlaced :
    (level hand id : ℕ) (entry : TimerEntry) (target p : Place) (w : Wheel)
    → (w.levels level).current_slot ≡ hand
    → IsPlaced id entry target p w
    → IsPlaced id entry target (move level hand target p) (cascade_one level w)
cascade_one-IsPlaced level hand id entry target p w h s =
    let c = cascade_one-Cascaded level w in
    record {
      found = rw c.entries s.found;
      at = rw (← h, ← s.aim) (cascade_one-IsAt level id entry w p s.found s.at);
      aim = rw (c.start, c.now) s.aim;
    }

pub cascaded-IsPlaced :
    (n d id : ℕ) (entry : TimerEntry) (p : Place) (v : Wheel)
    → (v.levels 0).current_slot ≡ n % 256
    → (v.levels 1).current_slot ≡ (n + 255) / 256 % 64
    → (v.levels 2).current_slot ≡ (n + 16383) / 16384 % 64
    → (v.levels 3).current_slot ≡ (n + 1048575) / 1048576 % 64
    → IsPlaced id entry (route (d - (n + 1)) d) p v
    → IsPlaced id entry (route (d - (n + 1)) d) (settle n d p) (cascaded v)
cascaded-IsPlaced n d id entry p v h0 h1 h2 h3 s =
    let target = route (d - (n + 1)) d in
    let v3 = cascade_one 3 v in
    let m3 = cascade_one-Cascaded 3 v in
    let m2 = cascade_one-Cascaded 2 v in
    let m23 = cascade_one-Cascaded 2 v3 in
    rw (cascaded_by_hands n v h0 h1 h2) (elim (Bool-cases (n % 256 == 0)) [
      | inr e ↦ rw e s
      | inl e ↦ rw e (elim (Bool-cases (n % 16384 == 0)) [
        | inr e1 ↦
            rw e1 (cascade_one-IsPlaced 1 (n / 256 % 64) id entry target p v (ground arith) s)
        | inl e1 ↦ rw e1 (elim (Bool-cases (n % 1048576 == 0)) [
          | inr e2 ↦ rw e2 (
              cascade_one-IsPlaced 1 (n / 256 % 64) id entry target _ (cascade_one 2 v)
                (ground (arith, m2.hands 1))
                (cascade_one-IsPlaced 2 (n / 16384 % 64) id entry target p v (ground arith) s))
          | inl e2 ↦ rw e2 (
              cascade_one-IsPlaced 1 (n / 256 % 64) id entry target _ (cascade_one 2 v3)
                (ground (arith, m23.hands 1, m3.hands 1))
                (cascade_one-IsPlaced 2 (n / 16384 % 64) id entry target _ v3
                  (ground (arith, m3.hands 2))
                  (cascade_one-IsPlaced 3 (n / 1048576 % 64) id entry target p v (ground arith) s)))
        ])
      ])
    ])

gone-kept : (id j : ℕ) (e : Entries) → lookup e id ≡ none → lookup (release j e) id ≡ none
gone-kept id j e gone = rw (lookup-release e j id) (ground (arith, gone))

-- What stands in the list that fires is no longer valid afterwards.
pub fire_all-gone :
    (done : Done) (ids : List ℕ) (id : ℕ) (f : Firing)
    → count id ids ≢ 0
    → lookup (fire_all done ids f).wheel.entries id ≡ none
unfolding fire_all
fire_all-gone done [] id f h = absurd (h refl)
fire_all-gone done (j ∷ ids) id f h = elim (Option-cases (lookup f.wheel.entries j)) [
  | inl e ↦
      rw (e, fire_all)
        (elim (Bool-cases (j == id)) [
          | inl eq ↦
              fire_all-keeps (λ es. lookup es id ≡ none) (gone-kept id) done ids f
                (rw (← ==→eq j id eq) e)
          | inr ne ↦ fire_all-gone done ids id f (rw ne at h)
        ])
  | inr (entry, e) ↦
      let g = fire_entry done j entry entry.state f in
      rw (e, fire_all)
        (elim (Bool-cases (j == id)) [
          | inl eq ↦
              fire_all-keeps (λ es. lookup es id ≡ none) (gone-kept id) done ids g
                (rw
                  (
                    entries-fire_entry done j entry entry.state f,
                    lookup-release f.wheel.entries j id,
                  )
                  (rw eq refl))
          | inr ne ↦ fire_all-gone done ids id g (rw ne at h)
        ])
]

-- What does not stand there is looked up as before.
fire_all-spared :
    (done : Done) (ids : List ℕ) (id : ℕ) (f : Firing)
    → count id ids ≡ 0
    → lookup (fire_all done ids f).wheel.entries id ≡ lookup f.wheel.entries id
unfolding fire_all
fire_all-spared done [] id f h = refl
fire_all-spared done (j ∷ ids) id f h =
    let ne : (j == id) ≡ false = ground arith in
    let h' : count id ids ≡ 0 = ground arith in
    elim (Option-cases (lookup f.wheel.entries j)) [
      | inl e ↦ rw (e, fire_all) (fire_all-spared done ids id f h')
      | inr (entry, e) ↦
          let g = fire_entry done j entry entry.state f in
          rw (e, fire_all)
            (fire_all-spared done ids id g h'
              ∙ rw
                  (
                    entries-fire_entry done j entry entry.state f,
                    lookup-release f.wheel.entries j id,
                  )
                  (rw ne refl))
    ]

-- A timer that waits for tick `d`, after `n` ticks.
pub record IsWaiting (id : ℕ) (entry : TimerEntry) (n d : ℕ) (w : Wheel) : Type 0 where
  pub found : lookup w.entries id ≡ some entry
  pub tick_of : ticks_between w.start_time entry.deadline ≡ d
  pub place_of : Place
  pub due : IsDue n d place_of
  pub at : IsAt id place_of w

-- A timer in the slot under the hand of level 0, or in another.
pub under_hand :
    (id : ℕ) (p : Place) (c : Wheel) (hand : ℕ)
    → (c.levels 0).current_slot ≡ hand
    → IsAt id p c
    → p.0 ≡ 0
    → p.1 ≡ hand
    → count id (current_ids 0 c) ≢ 0
under_hand id p c hand h at e0 e1 none_there =
    absurd (ground (arith, at 0 (c.levels 0).current_slot))

elsewhere :
    (id : ℕ) (p : Place) (c : Wheel) (hand : ℕ)
    → (c.levels 0).current_slot ≡ hand
    → IsAt id p c
    → (p.0 ≢ 0) ⊎ (p.1 ≢ hand)
    → count id (current_ids 0 c) ≡ 0
elsewhere id p c hand h at away = ground (arith, at 0 (c.levels 0).current_slot)

swept :
    (id : ℕ) (p : Place) (c : Wheel) (hand : ℕ)
    → (c.levels 0).current_slot ≡ hand
    → IsAt id p c
    → (p.0 ≢ 0) ⊎ (p.1 ≢ hand)
    → IsAt id p (advance_hand 0 (take_current 0 c))
swept id p c hand h at away l s = ground (arith, at l s)

pub aim_at :
    (n d deadline start : ℕ)
    → ticks_between start deadline ≡ d
    → ticks_between (start + n * tick_ns) deadline ≡ d - n
aim_at n d deadline start h = ground arith

-- The tick after `n` fires a timer that waits for tick `n`, which is then no longer valid, and leaves one
-- that waits for a later tick waiting.
pub tick-IsWaiting :
    (done : Done) (states : States) (n d id : ℕ) (entry : TimerEntry) (w : Wheel)
    → n ≤ d
    → InPhase n w
    → IsWaiting id entry n d w
    → ((d ≡ n) × (lookup (tick done states w).wheel.entries id ≡ none))
      ⊎ ((n < d) × IsWaiting id entry (n + 1) d (tick done states w).wheel)
unfolding tick process_current_slot
tick-IsWaiting done states n d id entry w le ph wt =
    let v : Wheel = record w { current_time = w.current_time + tick_ns } in
    let now : w.current_time + tick_ns ≡ w.start_time + (n + 1) * tick_ns =
      omega (arith, ph.time) in
    let c = cascaded v in
    let m = cascaded-MidTick n w ph in
    let placed =
      cascaded-IsPlaced n d id entry wt.place_of v ph.hand0 ph.hand1 ph.hand2 ph.hand3 (record {
        found = wt.found;
        at = wt.at;
        aim =
            ap₂ route (rw now (aim_at (n + 1) d entry.deadline w.start_time wt.tick_of)) wt.tick_of;
      }) in
    let f0 : Firing = record { wheel = take_current 0 c; states = states; fired = 0 } in
    let s = fire_all-SameLevels done (current_ids 0 c) f0 in
    elim (settle-Settled n d wt.place_of le wt.due) [
      | inl (eq, level, slot) ↦ inl (
        eq,
        fire_all-gone done (current_ids 0 c) id f0
            (under_hand id _ c _ m.hand0 placed.at level slot),
      )
      | inr (lt, due, away) ↦ inr (
        lt,
        record {
          found =
              fire_all-spared done (current_ids 0 c) id f0
                (elsewhere id _ c _ m.hand0 placed.at away)
              ∙ placed.found;
          tick_of = rw (s.start, start-cascaded v) wt.tick_of;
          place_of = settle n d wt.place_of;
          due = due;
          at = λ l k. rw s.levels (swept id _ c _ m.hand0 placed.at away l k);
        },
      )
    ]
