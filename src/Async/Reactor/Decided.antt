-- ===== src/Async/Reactor/Decided.antt =====
-- A wait that is decided: the reactor of src/async/io_reactor.hpp leaves its cell alone.
use rain.Base.{
  ℕ, ◌≡◌, refl, ◌∙◌, ap, inl, inr, Bool, true, false, not, ◌&&◌, ◌||◌, List, [], ◌∷◌, Option, none,
  some, is_some, ℤ, arith, Bool-cases, Option-cases,
}
use rain.Core.{is_eintr}
use rain.Async.Concepts.{is_pending}
use rain.Async.Reactor.Slots.{
  EpollEvents, Epoll, PendingEntry, FdEntry, World, Waited-cases, slot_index, put_slot, reset_if,
}
use rain.Async.Reactor.Poll.{
  set_reactor, fire, fire_if, ensure, rearm_or_erase, handle_event, handle_events, poll,
}

module _ {K : Type 0} where
  fire-states :
      (p : ℕ) (e : PendingEntry) (w : World K)
      → is_pending (w.states p) ≡ false
      → (fire e w).1.states p ≡ w.states p
  unfolding fire
  fire-states p e w d = ground (arith, d)

  fire_if-states :
      (p : ℕ) (concerned : Bool) (e : Option PendingEntry) (n : ℕ) (w : World K)
      → is_pending (w.states p) ≡ false
      → (fire_if concerned e (n, w)).1.states p ≡ w.states p
  fire_if-states p concerned none n w d = refl
  fire_if-states p true (some e) n w d = fire-states p e w d
  fire_if-states p false (some e) n w d = refl

module _ {K : Type 0} (epoll : Epoll K) where
  -- Rearming changes the kernel alone.
  pub rearm-kernel :
      (fd : ℤ) (w : World K)
      → ((rearm_or_erase epoll fd w).reactor ≡ w.reactor)
        × ((rearm_or_erase epoll fd w).states ≡ w.states)
        × ((rearm_or_erase epoll fd w).results ≡ w.results)
  unfolding rearm_or_erase ensure
  rearm-kernel fd w = ground arith

  handle_event-states :
      (p : ℕ) (fd : ℤ) (ep : EpollEvents) (n : ℕ) (w : World K)
      → is_pending (w.states p) ≡ false
      → (handle_event epoll (fd, ep) (n, w)).1.states p ≡ w.states p
  unfolding handle_event
  handle_event-states p fd ep n w d = elim (Option-cases (slot_index fd w.reactor)) [
    | inl e ↦ rw e refl
    | inr (i, e) ↦
        let slot = w.reactor.slots i in
        let failing = ep.epoll_err || ep.epoll_hup in
        let first = fire_if (ep.epoll_in || failing) slot.read (n, w) in
        let second = fire_if (ep.epoll_out || failing) slot.write first in
        let e1 = fire_if-states p (ep.epoll_in || failing) slot.read n w d in
        let e2 = fire_if-states p (ep.epoll_out || failing) slot.write first.0 first.1 (rw e1 d) in
        let after : FdEntry = record {
          read = reset_if (ep.epoll_in || failing) slot.read;
          write = reset_if (ep.epoll_out || failing) slot.write;
        } in
        let same = rearm-kernel fd (set_reactor second.1 (put_slot i after second.1.reactor)) in
        elim (Bool-cases (not (is_some slot.read) && not (is_some slot.write))) [
          | inl idle ↦ rw (e, idle) refl
          | inr busy ↦ rw (e, busy) (ap (λ f. f p) same.1 ∙ e2 ∙ e1)
        ]
  ]

  handle_events-states :
      (p : ℕ) (evs : List (ℤ × EpollEvents)) (n : ℕ) (w : World K)
      → is_pending (w.states p) ≡ false
      → (handle_events epoll evs (n, w)).1.states p ≡ w.states p
  unfolding handle_events
  handle_events-states p [] n w d = refl
  handle_events-states p ((fd, ep) ∷ evs) n w d =
      let s = handle_event epoll (fd, ep) (n, w) in
      let e = handle_event-states p fd ep n w d in handle_events-states p evs s.0 s.1 (rw e d) ∙ e

  -- A wait that was decided, by readiness, by a timer or by cancellation, is not decided again by `poll`.
  pub poll-states :
      (p : ℕ) (timeout_ms : ℤ) (w : World K)
      → is_pending (w.states p) ≡ false
      → (poll epoll timeout_ms w).1.states p ≡ w.states p
  unfolding poll
  poll-states p timeout_ms w d =
      let r = epoll.epoll_wait w.reactor.epoll_fd 256 timeout_ms w.kernel in
      elim (Waited-cases r.0) [
        | inl (evs, e) ↦ rw (poll, e) (handle_events-states p evs 0 (record w { kernel = r.1 }) d)
        | inr (x, e) ↦ elim (Bool-cases (is_eintr x)) [
          | inl again ↦ rw (poll, e, again) refl
          | inr bad ↦ rw (poll, e, bad) refl
        ]
      ]
