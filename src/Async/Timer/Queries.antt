-- ===== src/Async/Timer/Queries.antt =====
-- src/async/timer.hpp: `advance_to`, `next_deadline`, the ready list and `SleepAwaiter`.
pub mod Reached
use rain.Base.{
  ℕ, zero, suc, ◌+◌, ◌-◌, ◌/◌, ◌%◌, ◌^◌, Bool, true, false, List, [], ◌∷◌, ◌++◌, Option, none, some,
  ltb, ◌==◌, if◌then◌else◌, update,
}
use rain.Core.{Result, ok, err, made, Errc}
use rain.Async.Concepts.{WaitState, States, Done, is_pending}
use rain.Async.Timer.Slotmap.{lookup}
use rain.Async.Timer.Wheel.{Wheel, Level, Firing, tick, tick_ns, schedule, cancel_timer, num_levels}

-- `while (current_time_ < target) total += tick();`, on fuel.
unfoldable pub advance_loop : ℕ → ℕ → Done → Firing → Firing
advance_loop zero target done f = f
advance_loop (suc fuel) target done f =
    let g = tick done f.states f.wheel in
    let rest = advance_loop fuel target done (record g { fired = (f.fired + g.fired) % 2 ^ 32 }) in
    if ltb f.wheel.current_time target then rest else f

-- One tick for each millisecond begun.
unfoldable pub advance_to : ℕ → Done → States → Wheel → Firing
advance_to target done states w =
    advance_loop ((target + tick_ns - 1 - w.current_time) / tick_ns) target done
      (record { wheel = w; states = states; fired = 0 })

unfoldable pub drain_ready_into : List ℕ → Wheel → List ℕ × Wheel
drain_ready_into out w = (out ++ w.ready, record w { ready = [] })

unfoldable pub wake : ℕ → Wheel → Wheel
wake h w = record w { ready = w.ready ++ (h ∷ []) }

-- The deadline of the first valid id of a slot.
abbrev pub first_deadline : Wheel → List ℕ → Option ℕ
first_deadline w [] = none
first_deadline w (id ∷ ids) = elim (lookup w.entries id) [
  | none ↦ first_deadline w ids
  | some entry ↦ some entry.deadline
]

-- The smaller deadline, as the loop over a slot keeps it.
abbrev pub sooner : Option ℕ → ℕ → Option ℕ
sooner none d = some d
sooner (some e) d = if ltb d e then some d else some e

abbrev pub earliest_deadline : Wheel → Option ℕ → List ℕ → Option ℕ
earliest_deadline w best [] = best
earliest_deadline w best (id ∷ ids) =
    earliest_deadline w
      (elim (lookup w.entries id) [ none ↦ best | some entry ↦ sooner best entry.deadline ]) ids

abbrev pub or_else : Option ℕ → Option ℕ → Option ℕ
or_else none b = b
or_else (some a) b = some a

-- The slots of a level from its hand on, with `left` of them to go from the `i`-th.
unfoldable pub scan_level : (List ℕ → Option ℕ) → Level → ℕ → ℕ → Option ℕ
scan_level pick l zero i = none
scan_level pick l (suc left) i =
    or_else (pick (l.slots ((l.current_slot + i) % l.slot_count))) (scan_level pick l left (i + 1))

-- The levels from `level` on, with `left` of them to go.
unfoldable pub scan_levels : Wheel → ℕ → ℕ → Option ℕ
scan_levels w zero level = none
scan_levels w (suc left) level =
    or_else (scan_level (earliest_deadline w none) (w.levels level) (w.levels level).slot_count 0)
      (scan_levels w left (level + 1))

unfoldable pub next_deadline : Wheel → Option ℕ
next_deadline w =
    if w.entries.active_count == 0
    then none
    else or_else (scan_level (first_deadline w) (w.levels 0) (w.levels 0).slot_count 0)
        (scan_levels w 3 1)

-- `SleepAwaiter`: its delay, its timer, its handle, and the address of its `state_`. A null token is one
-- on which no stop is possible; `armed` says that a stop callback is in place.
pub record Sleep : Type 0 where
  pub delay : ℕ
  pub id : ℕ
  pub handle : Option ℕ
  pub state : ℕ
  pub armed : Bool

unfoldable pub sleep_ready : Sleep → Bool
sleep_ready s = s.delay == 0

unfoldable pub sleep_suspend : ℕ → Bool → Sleep → Wheel → Sleep × Wheel
sleep_suspend h stop_possible s w =
    let (id, w') = schedule s.delay (some h) (some s.state) WaitState.ready w in
    (record s { id = id; handle = some h; armed = stop_possible }, w')

abbrev pub wake_handle : Option ℕ → Wheel → Wheel
wake_handle none w = w
wake_handle (some h) w = wake h w

-- The stop callback.
unfoldable pub sleep_cancel : Sleep → States → Wheel → States × Wheel
sleep_cancel s states w =
    if is_pending (states s.state)
    then (update states s.state WaitState.cancelled, wake_handle s.handle (cancel_timer s.id w).1)
    else (states, w)

unfoldable pub sleep_resume : Sleep → States → Result (Unit {0}) × Sleep
sleep_resume s states = (
  elim (states s.state) [
    | WaitState.cancelled ↦ err (made Errc.operation_canceled "sleep cancelled")
    | _ ↦ ok tt
  ],
  record s { armed = false },
)
