-- ===== src/Async/Timer/Wheel/History.antt =====
-- What the operations of src/async/timer.hpp do to the entry table over the life of a wheel.
use rain.Base.{
  ℕ, ◌≡◌, refl, ◌∙◌, false, List, [], ◌∷◌, Option, none, some, arith, Option-cases, ap, subst, sym,
  update, inl, inr, zero, suc, ◌+◌, ◌%◌, ◌==◌, ◌&&◌, ltb, leb, if◌then◌else◌, Bool-cases,
}
use rain.Async.Concepts.{WaitState, States, Done, is_pending}
use rain.Async.Timer.Slotmap.{TimerEntry, Entries, lookup, acquire, release}
use rain.Async.Timer.Slotmap.Inv.{IsSound, HasRoom, release-IsSound, acquire-IsSound, cancel_lem}
use rain.Async.Timer.Slotmap.Lookup.{
  IsLater, IsLater-refl, IsLater-trans, release-IsLater, acquire-IsLater, IsIssued, lookup-later,
}
use rain.Async.Timer.Wheel.{
  Wheel, Firing, place, schedule_at, cancel_timer, replace_all, cascade_one, cascade, fire_entry,
  fire_all, process_current_slot, tick, resumed, current_ids, take_current, num_levels, tick_ns,
  cascaded, timer_entry,
}

-- `w'` differs from `w` in its slots at most.
pub record SameFrame (w w' : Wheel) : Type 0 where
  pub entries : w'.entries ≡ w.entries
  pub start : w'.start_time ≡ w.start_time
  pub now : w'.current_time ≡ w.current_time
  pub readies : w'.ready ≡ w.ready
  pub hands : (l : ℕ) → (w'.levels l).current_slot ≡ (w.levels l).current_slot
  pub sizes : (l : ℕ) → (w'.levels l).slot_count ≡ (w.levels l).slot_count

abbrev pub same : (w : Wheel) → SameFrame w w
same w = record {
  entries = refl;
  start = refl;
  now = refl;
  readies = refl;
  hands = λ l. refl;
  sizes = λ l. refl;
}

pub place-SameFrame :
    (id deadline : ℕ) {v : Wheel} (w : Wheel) → SameFrame v w → SameFrame v (place id deadline w)
unfolding place
place-SameFrame id deadline w f = record {
  entries = f.entries;
  start = f.start;
  now = f.now;
  readies = f.readies;
  hands = λ l. ground (arith, f.hands l);
  sizes = λ l. ground (arith, f.sizes l);
}

pub replace_all-SameFrame :
    (ids : List ℕ) {v : Wheel} (w : Wheel) → SameFrame v w → SameFrame v (replace_all ids w)
unfolding replace_all
replace_all-SameFrame [] w f = f
replace_all-SameFrame (id ∷ ids) w f = elim (Option-cases (lookup w.entries id)) [
  | inl e ↦ rw (e, replace_all) (replace_all-SameFrame ids w f)
  | inr (entry, e) ↦
      rw (e, replace_all)
        (replace_all-SameFrame ids (place id entry.deadline w)
          (place-SameFrame id entry.deadline w f))
]

-- A level that cascades keeps everything but slots and its own hand.
pub record Cascaded (level : ℕ) (w w' : Wheel) : Type 0 where
  pub entries : w'.entries ≡ w.entries
  pub start : w'.start_time ≡ w.start_time
  pub now : w'.current_time ≡ w.current_time
  pub readies : w'.ready ≡ w.ready
  pub hands :
      (l : ℕ)
      → (w'.levels l).current_slot ≡ (
          if level == l
          then ((w.levels l).current_slot + 1) % (w.levels l).slot_count
          else (w.levels l).current_slot)
  pub sizes : (l : ℕ) → (w'.levels l).slot_count ≡ (w.levels l).slot_count

pub cascade_one-Cascaded : (level : ℕ) (w : Wheel) → Cascaded level w (cascade_one level w)
unfolding cascade_one
cascade_one-Cascaded level w =
    let f = replace_all-SameFrame (current_ids level w) {v = w} (take_current level w) (record {
      entries = refl;
      start = refl;
      now = refl;
      readies = refl;
      hands = λ l. ground arith;
      sizes = λ l. ground arith;
    }) in
    record {
      entries = f.entries;
      start = f.start;
      now = f.now;
      readies = f.readies;
      hands = λ l. ground (arith, f.hands l, f.sizes l);
      sizes = λ l. ground (arith, f.sizes l);
    }

pub entries-cascade : (fuel level : ℕ) (w : Wheel) → (cascade fuel level w).entries ≡ w.entries
unfolding cascade
entries-cascade zero level w = refl
entries-cascade (suc fuel) level w =
    let above = cascade fuel (level + 1) w in
    let up = (w.levels level).current_slot == 0 && ltb (level + 1) num_levels in
    elim (Bool-cases (leb num_levels level)) [
      | inl top ↦ rw top refl
      | inr below ↦ rw below (elim (Bool-cases up) [
        | inl e ↦
            rw e ((cascade_one-Cascaded level above).entries ∙ entries-cascade fuel (level + 1) w)
        | inr e ↦ rw e (cascade_one-Cascaded level w).entries
      ])
    ]

start-cascade : (fuel level : ℕ) (w : Wheel) → (cascade fuel level w).start_time ≡ w.start_time
unfolding cascade
start-cascade zero level w = refl
start-cascade (suc fuel) level w =
    let above = cascade fuel (level + 1) w in
    ground (
      arith,
      (cascade_one-Cascaded level above).start,
      (cascade_one-Cascaded level w).start,
      start-cascade fuel (level + 1) w,
    )

pub start-cascaded : (w : Wheel) → (cascaded w).start_time ≡ w.start_time
unfolding cascaded
start-cascaded w = ground (arith, start-cascade 3 1 w)

entries-resumed :
    (done : Done) (handle : Option ℕ) (f : Firing)
    → (resumed done handle f).wheel.entries ≡ f.wheel.entries
entries-resumed done none f = refl
entries-resumed done (some h) f = ground arith

pub entries-cascaded : (w : Wheel) → (cascaded w).entries ≡ w.entries
unfolding cascaded
entries-cascaded w = ground (arith, entries-cascade 3 1 w)

-- An entry that fires, or whose wait was decided before, is released; nothing else changes the table.
pub entries-fire_entry :
    (done : Done) (id : ℕ) (entry : TimerEntry) (state : Option ℕ) (f : Firing)
    → (fire_entry done id entry state f).wheel.entries ≡ release id f.wheel.entries
unfolding fire_entry
entries-fire_entry done id entry none f = ap (release id) (entries-resumed done entry.handle f)
entries-fire_entry done id entry (some c) f =
    let g : Firing = record f { states = update f.states c entry.completion } in
    elim (Bool-cases (is_pending (f.states c))) [
      | inl e ↦ rw e (ap (release id) (entries-resumed done entry.handle g))
      | inr e ↦ rw e refl
    ]

-- Firing touches the entry table by `release` alone.
module _ (P : Entries → Type 0) (kept : (id : ℕ) (e : Entries) → P e → P (release id e)) where
  pub fire_all-keeps :
      (done : Done) (ids : List ℕ) (f : Firing)
      → P f.wheel.entries
      → P (fire_all done ids f).wheel.entries
  unfolding fire_all
  fire_all-keeps done [] f p = p
  fire_all-keeps done (id ∷ ids) f p = elim (Option-cases (lookup f.wheel.entries id)) [
    | inl e ↦ rw (e, fire_all) (fire_all-keeps done ids f p)
    | inr (entry, e) ↦
        rw (e, fire_all)
          (fire_all-keeps done ids (fire_entry done id entry entry.state f)
            (subst P (sym (entries-fire_entry done id entry entry.state f)) (kept id _ p)))
  ]

  pub tick-keeps :
      (done : Done) (states : States) (w : Wheel)
      → P w.entries
      → P (tick done states w).wheel.entries
  unfolding tick process_current_slot
  tick-keeps done states w p =
      fire_all-keeps done _ _
        (subst P (sym (entries-cascaded (record w { current_time = w.current_time + tick_ns }))) p)

-- What may happen to a wheel. A timer is scheduled while the table has room for it.
pub data Step (w : Wheel) : Wheel → Type 0 where
  schedules :
      (deadline : ℕ) (handle state : Option ℕ) (completion : WaitState)
      → HasRoom w.entries
      → Step w (schedule_at deadline handle state completion w).1
  cancels : (id : ℕ) → Step w (cancel_timer id w).1
  ticks : (done : Done) (states : States) → Step w (tick done states w).wheel

pub data Reach (w : Wheel) : Wheel → Type 0 where
  here : Reach w w
  next : {v u : Wheel} → Reach w v → Step v u → Reach w u

pub entries-schedule_at :
    (deadline : ℕ) (handle state : Option ℕ) (completion : WaitState) (w : Wheel)
    → (schedule_at deadline handle state completion w).1.entries
      ≡ (acquire w.entries (timer_entry deadline handle state completion)).1
unfolding schedule_at place
entries-schedule_at deadline handle state completion w = refl

pub entries-cancel_timer :
    (id : ℕ) (w : Wheel) → (cancel_timer id w).1.entries ≡ release id w.entries
unfolding cancel_timer
entries-cancel_timer id w = ap (λ r. r.1) (cancel_lem id w.entries)

-- Sound, and a later state of `e`.
abbrev Follows : Entries → Entries → Type 0
Follows e e' = IsSound e' × IsLater e e'

release-Follows : (e : Entries) (id : ℕ) (e' : Entries) → Follows e e' → Follows e (release id e')
release-Follows e id e' f = (release-IsSound id e' f.0, IsLater-trans f.1 (release-IsLater id e'))

Step-Follows : (e : Entries) {w v : Wheel} → Step w v → Follows e w.entries → Follows e v.entries
Step-Follows e {w} (schedules deadline handle state completion r) f =
    rw (entries-schedule_at deadline handle state completion w) (
      acquire-IsSound w.entries _ (λ id. refl) r f.0,
      IsLater-trans f.1 (acquire-IsLater w.entries _ r f.0),
    )
Step-Follows e {w} (cancels id) f =
    rw (entries-cancel_timer id w) (release-Follows e id w.entries f)
Step-Follows e {w} (ticks done states) f =
    tick-keeps (Follows e) (release-Follows e) done states w f

Reach-Follows : {w v : Wheel} → IsSound w.entries → Reach w v → Follows w.entries v.entries
Reach-Follows {w} s here = (s, IsLater-refl w.entries)
Reach-Follows {w} s (next r st) = Step-Follows w.entries st (Reach-Follows s r)

-- The entry table stays sound through every history of a wheel.
pub Reach-IsSound : {w v : Wheel} → IsSound w.entries → Reach w v → IsSound v.entries
Reach-IsSound s r = (Reach-Follows s r).0

-- An id that was handed out and is no longer valid, cancelled or fired, stays so through every
-- history: it is not found, and `cancel` refuses it and changes nothing.
pub spent_for_good :
    (id : ℕ) {w v : Wheel}
    → IsSound w.entries
    → IsIssued id w.entries
    → lookup w.entries id ≡ none
    → Reach w v
    → (lookup v.entries id ≡ none) × (cancel_timer id v ≡ (false, v))
unfolding cancel_timer
spent_for_good id {w} {v} s issued gone r =
    let after = lookup-later id s (Reach-Follows s r).1 issued gone in
    (after, rw (cancel_lem id v.entries) (unfold lookup release in ground (arith, after)))

pub tick-IsSound :
    (done : Done) (states : States) (w : Wheel)
    → IsSound w.entries
    → IsSound (tick done states w).wheel.entries
tick-IsSound = tick-keeps IsSound release-IsSound

pub tick-IsLater :
    (done : Done) (states : States) (w : Wheel)
    → IsSound w.entries
    → IsLater w.entries (tick done states w).wheel.entries
tick-IsLater done states w s =
    (tick-keeps (Follows w.entries) (release-Follows w.entries) done states w
      (s, IsLater-refl w.entries)).1
