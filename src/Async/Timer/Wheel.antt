-- ===== src/Async/Timer/Wheel.antt =====
-- src/async/timer.hpp: the levels of the wheel, and the operations on the whole.
pub mod History
pub mod Hands
pub mod Location
pub mod Positions
pub mod OnTime
pub mod Issued
pub mod Lifetime
pub mod Early
pub mod Fired
use rain.Base.{
  ℕ, zero, suc, ◌+◌, ◌-◌, ◌/◌, ◌%◌, ◌^◌, Bool, ◌&&◌, List, [], ◌∷◌, ◌++◌, Option, none, some, leb,
  ltb, ◌==◌, if◌then◌else◌, update,
}
use rain.Async.Concepts.{WaitState, is_pending, States, Done}
use rain.Async.Timer.Slotmap.{TimerEntry, Entries, no_entries, lookup, acquire, cancel, release}

pub record Level : Type 0 where
  pub slots : ℕ → List ℕ
  pub slot_count : ℕ
  pub current_slot : ℕ

pub record Wheel : Type 0 where
  pub levels : ℕ → Level
  pub start_time : ℕ
  pub current_time : ℕ
  pub entries : Entries
  pub ready : List ℕ

abbrev pub level0_size : ℕ
level0_size = 256

abbrev pub level_n_size : ℕ
level_n_size = 64

abbrev pub num_levels : ℕ
num_levels = 4

-- One millisecond.
abbrev pub tick_ns : ℕ
tick_ns = 1_000_000

abbrev pub level1_threshold : ℕ
level1_threshold = 256

abbrev pub level2_threshold : ℕ
level2_threshold = 16384

abbrev pub level3_threshold : ℕ
level3_threshold = 1048576

abbrev pub make_level : ℕ → Level
make_level num_slots = record { slots = λ i. []; slot_count = num_slots; current_slot = 0 }

-- The constructor, at the time that the clock shows.
unfoldable pub make_wheel : ℕ → Wheel
make_wheel now = record {
  levels = λ l. if l == 0 then make_level level0_size else make_level level_n_size;
  start_time = now;
  current_time = now;
  entries = no_entries;
  ready = [];
}

-- `duration_cast<milliseconds>(until - from)`, a negative one taken for 0.
abbrev pub ticks_between : ℕ → ℕ → ℕ
ticks_between from until = if ltb until from then 0 else (until - from) / tick_ns

-- The level and the slot for a deadline, from the ticks until it and the ticks from the start to it.
unfoldable pub route : ℕ → ℕ → ℕ × ℕ
route diff dticks =
    if ltb diff level1_threshold
    then (0, dticks % 2 ^ 8)
    else if ltb diff level2_threshold
    then (1, dticks / 2 ^ 8 % 2 ^ 6)
    else if ltb diff level3_threshold
    then (2, dticks / 2 ^ 14 % 2 ^ 6)
    else (3, dticks / 2 ^ 20 % 2 ^ 6)

-- `levels_[level].slots[slot].push_back(id)`.
abbrev pub push_slot : ℕ → ℕ × ℕ → Wheel → Wheel
push_slot id (level, slot) w =
    let l = w.levels level in
    record w {
      levels =
          update w.levels level
            (record l { slots = update l.slots slot (l.slots slot ++ (id ∷ [])) });
    }

unfoldable pub place : ℕ → ℕ → Wheel → Wheel
unfolding route
place id deadline w =
    push_slot id
      (route (ticks_between w.current_time deadline) (ticks_between w.start_time deadline)) w

-- The entry that `schedule_at` writes, once its id is known.
abbrev pub timer_entry : ℕ → Option ℕ → Option ℕ → WaitState → ℕ → TimerEntry
timer_entry deadline handle state completion id = record {
  id = id;
  deadline = deadline;
  handle = handle;
  state = state;
  completion = completion;
}

unfoldable pub schedule_at : ℕ → Option ℕ → Option ℕ → WaitState → Wheel → ℕ × Wheel
schedule_at deadline handle state completion w =
    let (id, entries) = acquire w.entries (timer_entry deadline handle state completion) in
    (id, place id deadline (record w { entries = entries }))

unfoldable pub schedule : ℕ → Option ℕ → Option ℕ → WaitState → Wheel → ℕ × Wheel
schedule delay handle state completion w =
    schedule_at (w.current_time + delay) handle state completion w

-- `HierarchicalTimerWheel::cancel`.
unfoldable pub cancel_timer : ℕ → Wheel → Bool × Wheel
cancel_timer id w =
    let (done, entries) = cancel id w.entries in (done, record w { entries = entries })

-- The slot under the hand of a level, taken out of it.
abbrev pub current_ids : ℕ → Wheel → List ℕ
current_ids level w = (w.levels level).slots (w.levels level).current_slot

abbrev pub take_current : ℕ → Wheel → Wheel
take_current level w =
    let l = w.levels level in
    record w {
      levels = update w.levels level (record l { slots = update l.slots l.current_slot [] });
    }

-- `current_slot = (current_slot + 1) % slot_count`.
abbrev pub advance_hand : ℕ → Wheel → Wheel
advance_hand level w =
    let l = w.levels level in
    record w {
      levels =
          update w.levels level (record l { current_slot = (l.current_slot + 1) % l.slot_count });
    }

-- The loop of `cascade`: the ids that are still valid are placed anew.
unfoldable pub replace_all : List ℕ → Wheel → Wheel
replace_all [] w = w
replace_all (id ∷ ids) w =
    replace_all ids
      (elim (lookup w.entries id) [ none ↦ w | some entry ↦ place id entry.deadline w ])

-- `cascade` without the level above it: the slot under the hand is emptied, its ids placed anew, and
-- the hand moves on.
unfoldable pub cascade_one : ℕ → Wheel → Wheel
cascade_one level w = advance_hand level (replace_all (current_ids level w) (take_current level w))

-- `cascade(level)`; the fuel is the number of levels that may still cascade.
unfoldable pub cascade : ℕ → ℕ → Wheel → Wheel
cascade zero level w = w
cascade (suc fuel) level w =
    let above = cascade fuel (level + 1) w in
    if leb num_levels level
    then w
    else cascade_one level
        (if (w.levels level).current_slot == 0 && ltb (level + 1) num_levels then above else w)

-- What the loop of `process_current_slot` changes: the wheel, the awaiters' states, the count.
pub record Firing : Type 0 where
  pub wheel : Wheel
  pub states : States
  pub fired : ℕ

abbrev pub released : ℕ → Firing → Firing
released id f = record f { wheel = record (f.wheel) { entries = release id f.wheel.entries } }

-- The handle, if there is one and it is not done, becomes ready.
abbrev pub resumed : Done → Option ℕ → Firing → Firing
resumed done none f = f
resumed done (some h) f = if done h then f else record f {
  wheel = record (f.wheel) { ready = f.wheel.ready ++ (h ∷ []) };
  fired = (f.fired + 1) % 2 ^ 32;
}

-- A timer whose wait was decided otherwise is only released.
unfoldable pub fire_entry : Done → ℕ → TimerEntry → Option ℕ → Firing → Firing
fire_entry done id entry none f = released id (resumed done entry.handle f)
fire_entry done id entry (some p) f =
    if is_pending (f.states p)
    then released id
        (resumed done entry.handle (record f { states = update f.states p entry.completion }))
    else released id f

unfoldable pub fire_all : Done → List ℕ → Firing → Firing
fire_all done [] f = f
fire_all done (id ∷ ids) f = fire_all done ids (elim (lookup f.wheel.entries id) [
  | none ↦ f
  | some entry ↦ fire_entry done id entry entry.state f
])

-- The cascade at the start of `process_current_slot`, once each round of level 0.
unfoldable pub cascaded : Wheel → Wheel
cascaded w = if (w.levels 0).current_slot == 0 then cascade 3 1 w else w

unfoldable pub process_current_slot : Done → States → Wheel → Firing
process_current_slot done states w =
    let w' = cascaded w in
    let f =
      fire_all done (current_ids 0 w')
        (record { wheel = take_current 0 w'; states = states; fired = 0 }) in
    record f { wheel = advance_hand 0 f.wheel }

unfoldable pub tick : Done → States → Wheel → Firing
tick done states w =
    process_current_slot done states (record w { current_time = w.current_time + tick_ns })
