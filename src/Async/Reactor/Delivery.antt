-- ===== src/Async/Reactor/Delivery.antt =====
-- What `poll` of src/async/io_reactor.hpp makes ready, and what it leaves waiting.
use rain.Base.{
  ℕ, ◌+◌, ◌^◌, ◌%◌, ◌≡◌, refl, sym, ◌∙◌, ap, ◌⊎◌, inl, inr, ◌≢◌, Bool, true, false, not, ◌&&◌, ◌||◌,
  List, [], ◌∷◌, ◌++◌, Option, none, some, is_some, ℤ, arith, Bool-cases, Option-cases, length,
  length-append, append-nil, append_assoc,
}
use rain.Core.{Errno, is_eintr, ok, err, from_errno}
use rain.Async.Concepts.{is_pending}
use rain.Async.Reactor.Slots.{
  EpollEvents, Epoll, PendingEntry, FdEntry, World, Waited-cases, slot_index, put_slot, reset_if,
}
use rain.Async.Reactor.Decided.{rearm-kernel}
use rain.Async.Reactor.Poll.{set_reactor, fire, fire_if, handle_event, handle_events, poll}

-- The handles that were added to a ready list, and the count that goes up with them, in 32 bits.
abbrev pub Adds : ℕ → List ℕ → ℕ → List ℕ → Type 0
Adds n before m after =
    (added : List ℕ) × (after ≡ before ++ added) × (m % 2 ^ 32 ≡ (n + length added) % 2 ^ 32)

Adds-none : (n : ℕ) (before : List ℕ) → Adds n before n before
Adds-none n before = ([], sym (append-nil before), omega arith)

Adds-trans :
    (n m k : ℕ) (before mid after : List ℕ)
    → Adds n before m mid
    → Adds m mid k after
    → Adds n before k after
Adds-trans n m k before mid after (xs, e, c) (ys, f, d) = (
  xs ++ ys,
  f ∙ ap (λ zs. zs ++ ys) e ∙ append_assoc before xs ys,
  omega (arith, c, d, length-append xs ys),
)

module _ {K : Type 0} where
  fire-adds :
      (e : PendingEntry) (w : World K)
      → (((fire e w).0 ≡ false) × ((fire e w).1.reactor ≡ w.reactor))
        ⊎ ((h : ℕ) × ((fire e w).0 ≡ true)
            × ((fire e w).1.reactor ≡ record (w.reactor) { ready = w.reactor.ready ++ (h ∷ []) }))
  unfolding fire
  fire-adds e w = elim (Option-cases e.state) [
    | inl s ↦ elim (Option-cases e.handle) [
      | inl h ↦ inl (ground (arith, s, h), ground (arith, s, h))
      | inr (x, h) ↦ inr (x, ground (arith, s, h), ground (arith, s, h))
    ]
    | inr (q, s) ↦ elim (Bool-cases (is_pending (w.states q))) [
      | inr done ↦ inl (rw (s, done) refl, rw (s, done) refl)
      | inl waits ↦ elim (Option-cases e.handle) [
        | inl h ↦ inl (ground (arith, s, h, waits), ground (arith, s, h, waits))
        | inr (x, h) ↦ inr (x, ground (arith, s, h, waits), ground (arith, s, h, waits))
      ]
    ]
  ]

  fire_if-Adds :
      (concerned : Bool) (e : Option PendingEntry) (n : ℕ) (w : World K)
      → Adds n w.reactor.ready
          (fire_if concerned e (n, w)).0
          (fire_if concerned e (n, w)).1.reactor.ready
  fire_if-Adds concerned none n w = Adds-none n w.reactor.ready
  fire_if-Adds false (some e) n w = Adds-none n w.reactor.ready
  fire_if-Adds true (some e) n w = elim (fire-adds e w) [
    | inl (quiet, same) ↦
        rw quiet ([], ap (λ r. r.ready) same ∙ sym (append-nil w.reactor.ready), omega arith)
    | inr (h, woke, more) ↦ rw woke (h ∷ [], ap (λ r. r.ready) more, omega arith)
  ]

  fire_if-slots :
      (concerned : Bool) (e : Option PendingEntry) (n : ℕ) (w : World K)
      → (fire_if concerned e (n, w)).1.reactor.slots ≡ w.reactor.slots
  fire_if-slots concerned none n w = refl
  fire_if-slots false (some e) n w = refl
  fire_if-slots true (some e) n w = elim (fire-adds e w) [
    | inl (quiet, same) ↦ ap (λ r. r.slots) same
    | inr (h, woke, more) ↦ ap (λ r. r.slots) more
  ]

module _ {K : Type 0} (epoll : Epoll K) where
  handle_event-Adds :
      (fd : ℤ) (ep : EpollEvents) (n : ℕ) (w : World K)
      → Adds n w.reactor.ready
          (handle_event epoll (fd, ep) (n, w)).0
          (handle_event epoll (fd, ep) (n, w)).1.reactor.ready
  unfolding handle_event
  handle_event-Adds fd ep n w = elim (Option-cases (slot_index fd w.reactor)) [
    | inl e ↦ rw e (Adds-none n w.reactor.ready)
    | inr (i, e) ↦
        let slot = w.reactor.slots i in
        let failing = ep.epoll_err || ep.epoll_hup in
        let first = fire_if (ep.epoll_in || failing) slot.read (n, w) in
        let second = fire_if (ep.epoll_out || failing) slot.write first in
        let both : Adds n w.reactor.ready second.0 second.1.reactor.ready =
          Adds-trans n first.0 second.0 w.reactor.ready first.1.reactor.ready second.1.reactor.ready
            (fire_if-Adds (ep.epoll_in || failing) slot.read n w)
            (fire_if-Adds (ep.epoll_out || failing) slot.write first.0 first.1) in
        let after : FdEntry = record {
          read = reset_if (ep.epoll_in || failing) slot.read;
          write = reset_if (ep.epoll_out || failing) slot.write;
        } in
        let same =
          rearm-kernel epoll fd (set_reactor second.1 (put_slot i after second.1.reactor)) in
        elim (Bool-cases (not (is_some slot.read) && not (is_some slot.write))) [
          | inl idle ↦ rw (e, idle) (Adds-none n w.reactor.ready)
          | inr busy ↦ rw (e, busy) (both.0, ap (λ r. r.ready) same.0 ∙ both.1, both.2)
        ]
  ]

  handle_events-Adds :
      (evs : List (ℤ × EpollEvents)) (n : ℕ) (w : World K)
      → Adds n w.reactor.ready
          (handle_events epoll evs (n, w)).0
          (handle_events epoll evs (n, w)).1.reactor.ready
  unfolding handle_events
  handle_events-Adds [] n w = Adds-none n w.reactor.ready
  handle_events-Adds ((fd, ep) ∷ evs) n w =
      let s = handle_event epoll (fd, ep) (n, w) in
      Adds-trans n s.0 (handle_events epoll evs s).0 w.reactor.ready s.1.reactor.ready
        (handle_events epoll evs s).1.reactor.ready (handle_event-Adds fd ep n w)
        (handle_events-Adds evs s.0 s.1)

  -- `poll` appends to the ready list as many handles as it says, in 32 bits, and takes none away; if it
  -- answers an error it has added none.
  pub poll_counts :
      (timeout_ms : ℤ) (w : World K)
      → (added : List ℕ) × ((poll epoll timeout_ms w).1.reactor.ready ≡ w.reactor.ready ++ added)
        × (((n : ℕ) × ((poll epoll timeout_ms w).0 ≡ ok n) × (n % 2 ^ 32 ≡ length added % 2 ^ 32))
            ⊎ ((x : Errno) × ((poll epoll timeout_ms w).0 ≡ err (from_errno x)) × (added ≡ [])))
  unfolding poll
  poll_counts timeout_ms w =
      let r = epoll.epoll_wait w.reactor.epoll_fd 256 timeout_ms w.kernel in
      let nothing = sym (append-nil w.reactor.ready) in
      elim (Waited-cases r.0) [
        | inl (evs, e) ↦
            let v : World K = record w { kernel = r.1 } in
            let (added, more, counted) = handle_events-Adds evs 0 v in
            (
              added,
              rw (poll, e) more,
              inl ((handle_events epoll evs (0, v)).0, rw (poll, e) refl, omega (arith, counted)),
            )
        | inr (x, e) ↦ elim (Bool-cases (is_eintr x)) [
          | inl again ↦ ([], rw (poll, e, again) nothing, inl (0, rw (poll, e, again) refl, refl))
          | inr bad ↦ ([], rw (poll, e, bad) nothing, inr (x, rw (poll, e, bad) refl, refl))
        ]
      ]

  -- An event for a descriptor in range resets the directions that it concerns, both on an error or a
  -- hang-up, and leaves the other direction and every other slot as it was.
  pub handle_event-slots :
      (fd : ℤ) (i : ℕ) (ep : EpollEvents) (n : ℕ) (w : World K)
      → slot_index fd w.reactor ≡ some i
      → let failing = ep.epoll_err || ep.epoll_hup in
        let slots = (handle_event epoll (fd, ep) (n, w)).1.reactor.slots in
        ((slots i).read ≡ reset_if (ep.epoll_in || failing) (w.reactor.slots i).read)
        × ((slots i).write ≡ reset_if (ep.epoll_out || failing) (w.reactor.slots i).write)
        × ((j : ℕ) → j ≢ i → slots j ≡ w.reactor.slots j)
  unfolding handle_event
  handle_event-slots fd i ep n w e =
      let slot = w.reactor.slots i in
      let failing = ep.epoll_err || ep.epoll_hup in
      let first = fire_if (ep.epoll_in || failing) slot.read (n, w) in
      let second = fire_if (ep.epoll_out || failing) slot.write first in
      let after : FdEntry = record {
        read = reset_if (ep.epoll_in || failing) slot.read;
        write = reset_if (ep.epoll_out || failing) slot.write;
      } in
      let kept : second.1.reactor.slots ≡ w.reactor.slots =
        fire_if-slots (ep.epoll_out || failing) slot.write first.0 first.1
        ∙ fire_if-slots (ep.epoll_in || failing) slot.read n w in
      let put = put_slot i after second.1.reactor in
      let same = ap (λ r. r.slots) (rearm-kernel epoll fd (set_reactor second.1 put)).0 in
      elim (Bool-cases (not (is_some slot.read) && not (is_some slot.write))) [
        | inl idle ↦
            rw (handle_event, e, idle) (ground (arith, idle), ground (arith, idle), λ j h. refl)
        | inr busy ↦
            rw (handle_event, e, busy, same)
              (ground arith, ground arith, λ j h. ground (arith, h, ap (λ f. f j) kept))
      ]
