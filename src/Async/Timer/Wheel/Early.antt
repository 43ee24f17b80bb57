-- ===== src/Async/Timer/Wheel/Early.antt =====
-- The deadlines that src/async/timer.hpp serves early: in `cascade`, `place` sees the time of the tick
-- under way, and a timer 255 ticks ahead of it goes into the very slot that this tick fires.
use rain.Base.{
  ℕ, ◌+◌, ◌-◌, ◌*◌, ◌%◌, ◌≡◌, ap, ap₂, ◌≤◌, ◌<◌, none, some, arith, ltb, true, false, count,
}
use rain.Async.Concepts.{States, Done, is_pending}
use rain.Async.Timer.Slotmap.{TimerEntry, lookup}
use rain.Async.Timer.Wheel.{
  Wheel, route, tick, tick_ns, ticks_between, cascaded, current_ids, take_current,
  process_current_slot, Firing,
}
use rain.Async.Timer.Wheel.History.{entries-cascaded}
use rain.Async.Timer.Wheel.Fired.{Alone, fire_all-wakes}
use rain.Async.Timer.Wheel.Hands.{InPhase, cascaded-MidTick}
use rain.Async.Timer.Wheel.Location.{Place, IsAt}
use rain.Async.Timer.Wheel.Positions.{settle}
use rain.Async.Timer.Wheel.OnTime.{aim_at, cascaded-IsPlaced, fire_all-gone, under_hand}

-- A timer that waits on level 2 for tick `n + 256` meets the hand at tick `n`.
settle_early :
    (n k : ℕ)
    → n % 16384 ≡ 0
    → k + 16384 ≤ n + 256
    → n + 256 < k + 1048576
    → settle n (n + 256) (route (n + 256 - k) (n + 256)) ≡ (0, n % 256)
unfolding route
settle_early n k h lo hi = let far : ltb (n + 256 - k) 16384 ≡ false = ground arith in ground arith

-- A timer that was placed more than 16383 and fewer than 2 ^ 20 ticks ahead, for tick `n + 256` where `n`
-- is a multiple of 16384, while its wait is pending in a cell of its own and its coroutine has not ended: the
-- tick after `n`, 255 ticks before its deadline, makes the coroutine ready, and the timer is spent.
pub fires_early :
    (done : Done) (states : States) (n k id h p : ℕ) (entry : TimerEntry) (w : Wheel)
    → n % 16384 ≡ 0
    → k + 16384 ≤ n + 256
    → n + 256 < k + 1048576
    → InPhase n w
    → lookup w.entries id ≡ some entry
    → ticks_between w.start_time entry.deadline ≡ n + 256
    → IsAt id (route (n + 256 - k) (n + 256)) w
    → entry.handle ≡ some h
    → done h ≡ false
    → entry.state ≡ some p
    → is_pending (states p) ≡ true
    → Alone id p w.entries
    → (0 < count h (tick done states w).wheel.ready)
      × (lookup (tick done states w).wheel.entries id ≡ none)
unfolding tick process_current_slot
fires_early done states n k id h p entry w m lo hi ph found t at handle alive state pending alone =
    let d : ℕ = n + 256 in
    let q = route (d - k) d in
    let v : Wheel = record w { current_time = w.current_time + tick_ns } in
    let now : w.current_time + tick_ns ≡ w.start_time + (n + 1) * tick_ns =
      omega (arith, ph.time) in
    let c = cascaded v in
    let placed = cascaded-IsPlaced n d id entry q v ph.hand0 ph.hand1 ph.hand2 ph.hand3 (record {
      found = found;
      at = at;
      aim = ap₂ route (rw now (aim_at (n + 1) d entry.deadline w.start_time t)) t;
    }) in
    let e = settle_early n k m lo hi in
    let listed =
      under_hand id (settle n d q) c (n % 256) (cascaded-MidTick n w ph).hand0 placed.at
        (ap (λ (r : Place). r.0) e) (ap (λ (r : Place). r.1) e) in
    let f : Firing = record { wheel = take_current 0 c; states = states; fired = 0 } in
    let alone' : Alone id p c.entries = rw (entries-cascaded v) alone in
    let woken =
      fire_all-wakes h p done (current_ids 0 c) id entry f handle alive state listed placed.found
        pending alone' in
    (omega (arith, woken), fire_all-gone done (current_ids 0 c) id f listed)
