-- ===== src/Async/Timer/Wheel/Fired.antt =====
-- What the loop of `process_current_slot` of src/async/timer.hpp makes of a timer whose wait is pending.
use rain.Base.{
  ℕ, ◌≤◌, ◌<◌, ◌≡◌, ◌≢◌, refl, inl, inr, true, false, List, [], ◌∷◌, Option, none, some, arith,
  ◌==◌, count, count-append, update, Bool-cases, Option-cases, ==→eq,
}
use rain.Async.Concepts.{is_pending, Done}
use rain.Async.Timer.Slotmap.{TimerEntry, Entries, lookup}
use rain.Async.Timer.Slotmap.Lookup.{lookup-release}
use rain.Async.Timer.Wheel.{Firing, fire_entry, fire_all, resumed}
use rain.Async.Timer.Wheel.History.{entries-fire_entry}

-- Nobody but the timer `id` has the cell `p`.
abbrev pub Alone : ℕ → ℕ → Entries → Type 0
Alone id p e =
    (j : ℕ) (entry : TimerEntry) → lookup e j ≡ some entry → entry.state ≡ some p → j ≡ id

resumed-grows :
    (h : ℕ) (done : Done) (handle : Option ℕ) (f : Firing)
    → count h f.wheel.ready ≤ count h (resumed done handle f).wheel.ready
resumed-grows h done none f = omega arith
resumed-grows h done (some g) f = ground (arith, count-append h f.wheel.ready (g ∷ []))

fire_entry-grows :
    (h : ℕ) (done : Done) (id : ℕ) (entry : TimerEntry) (state : Option ℕ) (f : Firing)
    → count h f.wheel.ready ≤ count h (fire_entry done id entry state f).wheel.ready
unfolding fire_entry
fire_entry-grows h done id entry none f = resumed-grows h done entry.handle f
fire_entry-grows h done id entry (some c) f =
    let g : Firing = record f { states = update f.states c entry.completion } in
    elim (Bool-cases (is_pending (f.states c))) [
      | inl e ↦ rw e (resumed-grows h done entry.handle g)
      | inr e ↦ rw e (omega arith)
    ]

fire_all-grows :
    (h : ℕ) (done : Done) (ids : List ℕ) (f : Firing)
    → count h f.wheel.ready ≤ count h (fire_all done ids f).wheel.ready
unfolding fire_all
fire_all-grows h done [] f = omega arith
fire_all-grows h done (j ∷ ids) f = elim (Option-cases (lookup f.wheel.entries j)) [
  | inl e ↦ rw (e, fire_all) (fire_all-grows h done ids f)
  | inr (entry, e) ↦
      let one = fire_entry-grows h done j entry entry.state f in
      let rest = fire_all-grows h done ids (fire_entry done j entry entry.state f) in
      rw (e, fire_all) (omega (arith, one, rest))
]

-- Its own entry makes the handle ready.
fire_entry-wakes :
    (h p : ℕ) (done : Done) (id : ℕ) (entry : TimerEntry) (f : Firing)
    → entry.handle ≡ some h
    → done h ≡ false
    → entry.state ≡ some p
    → is_pending (f.states p) ≡ true
    → count h f.wheel.ready < count h (fire_entry done id entry entry.state f).wheel.ready
unfolding fire_entry
fire_entry-wakes h p done id entry f handle alive state pending =
    rw (state, fire_entry, pending, handle, alive)
      (ground (arith, count-append h f.wheel.ready (h ∷ [])))

-- Another entry leaves the cell as it is.
states-other :
    (p : ℕ) (done : Done) (id : ℕ) (entry : TimerEntry) (state : Option ℕ) (f : Firing)
    → state ≢ some p
    → (fire_entry done id entry state f).states p ≡ f.states p
unfolding fire_entry
states-other p done id entry state f h = ground (arith, h)

-- A timer in the list that fires, whose wait is pending and whose cell is its own: its coroutine is made ready.
pub fire_all-wakes :
    (h p : ℕ) (done : Done) (ids : List ℕ) (id : ℕ) (entry : TimerEntry) (f : Firing)
    → entry.handle ≡ some h
    → done h ≡ false
    → entry.state ≡ some p
    → count id ids ≢ 0
    → lookup f.wheel.entries id ≡ some entry
    → is_pending (f.states p) ≡ true
    → Alone id p f.wheel.entries
    → count h f.wheel.ready < count h (fire_all done ids f).wheel.ready
unfolding fire_all
fire_all-wakes h p done [] id entry f handle alive state listed found pending alone =
    absurd (listed refl)
fire_all-wakes h p done (j ∷ ids) id entry f handle alive state listed found pending alone =
    elim (Bool-cases (j == id)) [
      | inl eq ↦
          let here : lookup f.wheel.entries j ≡ some entry = rw (==→eq j id eq) found in
          let one = fire_entry-wakes h p done j entry f handle alive state pending in
          let rest = fire_all-grows h done ids (fire_entry done j entry entry.state f) in
          rw (here, fire_all) (omega (arith, one, rest))
      | inr ne ↦ elim (Option-cases (lookup f.wheel.entries j)) [
        | inl e ↦
            rw (e, fire_all)
              (fire_all-wakes h p done ids id entry f handle alive state (rw ne at listed) found
                pending alone)
        | inr (other, e) ↦
            let g = fire_entry done j other other.state f in
            let away : other.state ≢ some p = λ s. ground (arith, alone j other e s, ne) in
            let same = states-other p done j other other.state f away in
            let table = entries-fire_entry done j other other.state f in
            let grown = fire_entry-grows h done j other other.state f in
            let found' : lookup g.wheel.entries id ≡ some entry =
              rw (table, lookup-release f.wheel.entries j id, ne) found in
            let alone' : Alone id p g.wheel.entries = λ k x here_at.
              let at' = rw (table, lookup-release f.wheel.entries j k) at here_at in
              alone k x (ground (arith, at')) in
            let rest =
              fire_all-wakes h p done ids id entry g handle alive state (rw ne at listed) found'
                (rw same pending) alone' in
            rw (e, fire_all) (omega (arith, grown, rest))
      ]
    ]
