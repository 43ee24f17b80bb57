-- ===== src/Async/Timer/Tests.antt =====
-- Tests of the timers, and the properties at concrete inputs.
use rain.Base.{
  count, ℕ, ◌+◌, ◌≡◌, refl, ◌≤◌, ◌<◌, ◌⊎◌, inl, true, false, [], ◌∷◌, none, some, arith, ◌==◌,
  update, if◌then◌else◌, ◌^◌, ◌&&◌,
}
use rain.Async.Concepts.{WaitState, States, Done}
use rain.Async.Timer.Slotmap.{
  empty_slot, no_entries, encode_id, lookup, acquire, allocate, activate, cancel, release,
}
use rain.Async.Timer.Slotmap.Inv.{IsSound, HasRoom, no_entries-IsSound}
use rain.Async.Timer.Wheel.{
  Wheel, make_wheel, schedule, schedule_at, cancel_timer, tick, process_current_slot, cascaded,
  cascade, cascade_one, replace_all, place, route, fire_all, fire_entry, tick_ns, timer_entry,
  make_level,
}
use rain.Async.Timer.Wheel.History.{
  Reach, here, next, schedules, cancels, ticks, Reach-IsSound, spent_for_good,
}
use rain.Async.Timer.Wheel.Hands.{InPhase, make_wheel-InPhase}
use rain.Async.Timer.Wheel.Lifetime.{IsRunning, start, ticked, fires_on_time}
use rain.Async.Timer.Wheel.Location.{IsAt}
use rain.Async.Timer.Slotmap.Lookup.{lookup_changes}
use rain.Async.Timer.Wheel.Early.{fires_early}
use rain.Async.Timer.Wheel.Fired.{Alone}
use rain.Async.Timer.Queries.{advance_to, next_deadline, scan_level, scan_levels}
use rain.Async.Timer.Queries.Reached.{advance_to_lem}

abbrev no_states : States
no_states a = WaitState.pending

abbrev never_done : Done
never_done h = false

-- A timer of handle 7, 2 ms ahead on a new wheel.
abbrev scheduled_wheel : Wheel
unfolding make_wheel schedule_at acquire allocate activate place route encode_id
scheduled_wheel = (schedule_at 2_000_000 (some 7) none WaitState.timed_out (make_wheel 0)).1

-- Its id is that of index 0 in generation 1. It is ready after three ticks and not after two.
first_id : (schedule_at 2_000_000 (some 7) none WaitState.timed_out (make_wheel 0)).0 ≡ 2 ^ 24
unfolding make_wheel schedule_at acquire allocate activate encode_id
first_id = refl

abbrev tick_once : Wheel → Wheel
tick_once w = (tick never_done no_states w).wheel

not_ready_after_two : (tick_once (tick_once scheduled_wheel)).ready ≡ []
unfolding tick process_current_slot cascaded cascade cascade_one replace_all place route fire_all
    fire_entry lookup release scheduled_wheel
not_ready_after_two = refl

ready_after_three : (tick_once (tick_once (tick_once scheduled_wheel))).ready ≡ 7 ∷ []
unfolding tick process_current_slot cascaded cascade cascade_one replace_all place route fire_all
    fire_entry lookup release scheduled_wheel
ready_after_three = refl

new_wheel-IsRunning : IsRunning 0 (make_wheel 0)
unfolding make_wheel
new_wheel-IsRunning = record {
  sound = no_entries-IsSound;
  phase = make_wheel-InPhase 0;
  issued = λ id. inl (λ l s. ground arith);
}

no_entries-HasRoom : HasRoom no_entries
no_entries-HasRoom = record { indices = omega arith; generations = λ i. omega arith }

abbrev first : ℕ × Wheel
first = schedule_at 2_000_000 (some 7) none WaitState.timed_out (make_wheel 0)

fires_on_time_example :
    ((1 ≤ 2)
      × (lookup (tick never_done no_states first.1).wheel.entries first.0
          ≡ some (timer_entry 2_000_000 (some 7) none WaitState.timed_out first.0)))
    ⊎ ((2 < 1) × (lookup (tick never_done no_states first.1).wheel.entries first.0 ≡ none))
unfolding make_wheel
fires_on_time_example =
    fires_on_time 0 2 1 2_000_000 (some 7) none WaitState.timed_out (make_wheel 0) _
      no_entries-HasRoom new_wheel-IsRunning refl (omega arith) (inl (omega arith))
      (ticked never_done no_states refl start)

-- The timer of `scheduled_wheel` is cancelled.
abbrev cancelled_wheel : Wheel
cancelled_wheel = (cancel_timer (2 ^ 24) first.1).1

first-Reach : Reach (make_wheel 0) cancelled_wheel
unfolding make_wheel
first-Reach =
    next (next here (schedules 2_000_000 (some 7) none WaitState.timed_out no_entries-HasRoom))
      (cancels (2 ^ 24))

cancelled_wheel-IsSound : IsSound cancelled_wheel.entries
unfolding make_wheel
cancelled_wheel-IsSound = Reach-IsSound no_entries-IsSound first-Reach

spent_for_good_example :
    (lookup (tick never_done no_states cancelled_wheel).wheel.entries (2 ^ 24) ≡ none)
    × (cancel_timer (2 ^ 24) (tick never_done no_states cancelled_wheel).wheel
        ≡ (false, (tick never_done no_states cancelled_wheel).wheel))
unfolding make_wheel schedule_at acquire allocate activate place route encode_id cancel_timer cancel
    lookup
spent_for_good_example =
    spent_for_good (2 ^ 24) cancelled_wheel-IsSound (omega arith) refl
      (next here (ticks never_done no_states))

lookup_changes_example :
    (lookup (acquire no_entries (timer_entry 5 none none WaitState.timed_out)).1 3 ≡ (
      if (acquire no_entries (timer_entry 5 none none WaitState.timed_out)).0 == 3
      then some (
          timer_entry 5 none none WaitState.timed_out
            (acquire no_entries (timer_entry 5 none none WaitState.timed_out)).0)
      else lookup no_entries 3))
    × (lookup (release 5 no_entries) 3 ≡ (if 5 == 3 then none else lookup no_entries 3))
lookup_changes_example =
    lookup_changes no_entries (timer_entry 5 none none WaitState.timed_out) 5 3 no_entries-HasRoom
      no_entries-IsSound

advance_to_lem_example :
    (m : ℕ) × InPhase m (advance_to 2_500_000 never_done no_states (make_wheel 0)).wheel
    × (2_500_000 ≤ (advance_to 2_500_000 never_done no_states (make_wheel 0)).wheel.current_time)
    × ((advance_to 2_500_000 never_done no_states (make_wheel 0)).wheel.current_time
        < 2_500_000 + tick_ns)
unfolding make_wheel
advance_to_lem_example =
    advance_to_lem 0 2_500_000 never_done no_states (make_wheel 0) (make_wheel-InPhase 0)
      (omega arith)

-- After 16384 ticks: a timer set 16640 ms ahead at the start stands in slot 1 of level 2, under the hand.
abbrev late_wheel : Wheel
late_wheel = record {
  levels = λ l. if l == 0 then make_level 256 else if l == 1 then make_level 64 else record {
    slots = λ s. if l == 2 && s == 1 then 2 ^ 24 ∷ [] else [];
    slot_count = 64;
    current_slot = if l == 2 then 1 else 1;
  };
  start_time = 0;
  current_time = 16_384_000_000;
  entries = record {
    slotmap =
        update (λ i. empty_slot) 0
          (record {
            entry = timer_entry 16_640_000_000 (some 7) (some 20) WaitState.timed_out (2 ^ 24);
            generation = 1;
            active = true;
          });
    slotmap_size = 1;
    free_indices = [];
    active_count = 1;
  };
  ready = [];
}

late_wheel-IsAt : IsAt (2 ^ 24) (route 16640 16640) late_wheel
unfolding route
late_wheel-IsAt l s = ground arith

late_wheel-Alone : Alone (2 ^ 24) 20 late_wheel.entries
unfolding lookup
late_wheel-Alone j entry found state = ground (arith, found, state)

fires_early_example :
    (0 < count 7 (tick never_done no_states late_wheel).wheel.ready)
    × (lookup (tick never_done no_states late_wheel).wheel.entries (2 ^ 24) ≡ none)
unfolding lookup
fires_early_example =
    fires_early never_done no_states 16384 0 (2 ^ 24) 7 20
      (timer_entry 16_640_000_000 (some 7) (some 20) WaitState.timed_out (2 ^ 24)) late_wheel refl
      (omega arith) (omega arith) (omega arith) refl refl late_wheel-IsAt refl refl refl refl
      late_wheel-Alone

-- The early timer is made ready by that tick, with 255 ms to go.
ready_early : (tick never_done no_states late_wheel).wheel.ready ≡ 7 ∷ []
unfolding tick process_current_slot cascaded cascade cascade_one replace_all place route fire_all
    fire_entry lookup release
ready_early = refl

-- A timer 256 ticks ahead goes to level 1. Two ticks later another one is set 255 ticks ahead, on level 0: its
-- deadline is later, but it is the one that `next_deadline` answers.
abbrev far_timer : Wheel
unfolding make_wheel schedule schedule_at acquire allocate activate place route encode_id
far_timer = (schedule 256_000_000 (some 7) none WaitState.timed_out (make_wheel 0)).1

abbrev two_ticks_on : Wheel
unfolding far_timer tick process_current_slot cascaded fire_all cascade cascade_one replace_all
two_ticks_on = (tick never_done no_states (tick never_done no_states far_timer).wheel).wheel

abbrev near_timer : Wheel
unfolding two_ticks_on schedule schedule_at acquire allocate activate place route encode_id
near_timer = (schedule 255_000_000 (some 8) none WaitState.timed_out two_ticks_on).1

not_the_next : next_deadline near_timer ≡ some 257_000_000
unfolding near_timer next_deadline scan_level scan_levels lookup
not_the_next = refl
