-- ===== src/Async/Race.antt =====
-- The race for a wait between src/async/io_reactor.hpp, src/async/timer.hpp and the stop callback of SleepAwaiter: they
-- share the `WaitState` cells of awaiters, and run one at a time on the core that owns them.
use rain.Base.{
  ℕ, ◌+◌, ◌≡◌, refl, ◌∙◌, ap, inl, inr, false, List, [], ◌∷◌, Option, none, some, update, arith,
  Bool-cases, Option-cases, ℤ,
}
use rain.Async.Concepts.{is_pending, States, Done}
use rain.Async.Timer.Slotmap.{TimerEntry, lookup}
use rain.Async.Timer.Wheel.{
  Wheel, Firing, fire_entry, fire_all, resumed, tick, process_current_slot, current_ids,
  take_current, cascaded, tick_ns,
}
use rain.Async.Timer.Queries.{Sleep, sleep_cancel}
use rain.Async.Reactor.Slots.{Epoll, World}
use rain.Async.Reactor.Poll.{poll}
use rain.Async.Reactor.Decided.{poll-states}

states-resumed :
    (done : Done) (handle : Option ℕ) (f : Firing) → (resumed done handle f).states ≡ f.states
states-resumed done none f = refl
states-resumed done (some h) f = ground arith

states-fire_entry :
    (p id : ℕ) (done : Done) (entry : TimerEntry) (state : Option ℕ) (f : Firing)
    → is_pending (f.states p) ≡ false
    → (fire_entry done id entry state f).states p ≡ f.states p
unfolding fire_entry
states-fire_entry p id done entry none f d = ap (λ s. s p) (states-resumed done entry.handle f)
states-fire_entry p id done entry (some c) f d =
    let g : Firing = record f { states = update f.states c entry.completion } in
    elim (Bool-cases (is_pending (f.states c))) [
      | inl e ↦ rw e (ap (λ s. s p) (states-resumed done entry.handle g) ∙ ground (arith, d, e))
      | inr e ↦ rw e refl
    ]

states-fire_all :
    (p : ℕ) (done : Done) (ids : List ℕ) (f : Firing)
    → is_pending (f.states p) ≡ false
    → (fire_all done ids f).states p ≡ f.states p
unfolding fire_all
states-fire_all p done [] f d = refl
states-fire_all p done (id ∷ ids) f d = elim (Option-cases (lookup f.wheel.entries id)) [
  | inl e ↦ rw (fire_all, e) (states-fire_all p done ids f d)
  | inr (entry, e) ↦
      let s = states-fire_entry p id done entry entry.state f d in
      rw (fire_all, e)
        (states-fire_all p done ids (fire_entry done id entry entry.state f) (rw s d) ∙ s)
]

-- A core: its reactor with the cells, and its wheel.
pub record Core (K : Type 0) : Type 0 where
  pub world : World K
  pub wheel : Wheel

abbrev pub with_states : {K : Type 0} → Core K → States → Wheel → Core K
with_states c states wheel = record { world = record (c.world) { states = states }; wheel = wheel }

module _ {K : Type 0} (epoll : Epoll K) where
  abbrev pub poll_core : ℤ → Core K → Core K
  poll_core timeout_ms c = record c { world = (poll epoll timeout_ms c.world).1 }

  abbrev pub tick_core : Done → Core K → Core K
  tick_core done c = let f = tick done c.world.states c.wheel in with_states c f.states f.wheel

  abbrev pub stop_sleep : Sleep → Core K → Core K
  stop_sleep s c =
      let (states, wheel) = sleep_cancel s c.world.states c.wheel in with_states c states wheel

  -- What may decide a wait.
  pub data Turn (c : Core K) : Core K → Type 0 where
    polls : (timeout_ms : ℤ) → Turn c (poll_core timeout_ms c)
    ticks : (done : Done) → Turn c (tick_core done c)
    stops : (s : Sleep) → Turn c (stop_sleep s c)

  -- A turn leaves a wait that is decided as it is.
  pub Turn-decided :
      (p : ℕ) {c d : Core K}
      → Turn c d
      → is_pending (c.world.states p) ≡ false
      → d.world.states p ≡ c.world.states p
  unfolding tick process_current_slot sleep_cancel
  Turn-decided p {c} (polls timeout_ms) h = poll-states epoll p timeout_ms c.world h
  Turn-decided p {c} (ticks done) h =
      let w = cascaded (record (c.wheel) { current_time = c.wheel.current_time + tick_ns }) in
      states-fire_all p done (current_ids 0 w)
        (record { wheel = take_current 0 w; states = c.world.states; fired = 0 }) h
  Turn-decided p {c} (stops s) h = ground (arith, h)
