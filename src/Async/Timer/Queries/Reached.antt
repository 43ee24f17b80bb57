-- ===== src/Async/Timer/Queries/Reached.antt =====
-- `advance_to` of src/async/timer.hpp reaches its target, with the fuel that its caller gives.
use rain.Base.{
  ℕ, zero, suc, ◌+◌, ◌-◌, ◌*◌, ◌/◌, ◌%◌, ◌^◌, ◌≤◌, ◌<◌, arith, Bool-cases, inl, inr, ltb, ltb→lt,
}
use rain.Async.Concepts.{States, Done}
use rain.Async.Timer.Wheel.{Wheel, Firing, tick, tick_ns}
use rain.Async.Timer.Wheel.Hands.{InPhase, tick-InPhase, start-tick}
use rain.Async.Timer.Queries.{advance_loop, advance_to}

advance_loop-InPhase :
    (fuel n target : ℕ) (done : Done) (f : Firing)
    → InPhase n f.wheel
    → target ≤ f.wheel.current_time + fuel * tick_ns
    → f.wheel.start_time + n * tick_ns < target + tick_ns
    → (m : ℕ) × InPhase m (advance_loop fuel target done f).wheel
      × (target ≤ (advance_loop fuel target done f).wheel.current_time)
      × ((advance_loop fuel target done f).wheel.current_time < target + tick_ns)
unfolding advance_loop
advance_loop-InPhase zero n target done f p h k =
    (n, p, omega (arith, p.time), omega (arith, p.time))
advance_loop-InPhase (suc fuel) n target done f p h k =
    elim (Bool-cases (ltb f.wheel.current_time target)) [
      | inl more ↦
          let g = tick done f.states f.wheel in
          let p' = tick-InPhase done f.states n f.wheel p in
          rw more (
            advance_loop-InPhase fuel (n + 1) target done
              (record g { fired = (f.fired + g.fired) % 2 ^ 32 }) p'
              (omega (arith, p.time, p'.time, start-tick done f.states f.wheel))
              (omega (arith, p.time, start-tick done f.states f.wheel, ltb→lt _ _ more)))
      | inr reached ↦ rw reached (n, p, ground arith, omega (arith, p.time))
    ]

-- `advance_to` ends, in phase, at the first time of a tick that is not before the target.
pub advance_to_lem :
    (n target : ℕ) (done : Done) (states : States) (w : Wheel)
    → InPhase n w
    → w.current_time ≤ target
    → (m : ℕ) × InPhase m (advance_to target done states w).wheel
      × (target ≤ (advance_to target done states w).wheel.current_time)
      × ((advance_to target done states w).wheel.current_time < target + tick_ns)
unfolding advance_to
advance_to_lem n target done states w p h =
    advance_loop-InPhase ((target + tick_ns - 1 - w.current_time) / tick_ns) n target done
      (record { wheel = w; states = states; fired = 0 }) p (omega arith) (omega (arith, p.time))
