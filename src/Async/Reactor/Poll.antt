-- ===== src/Async/Reactor/Poll.antt =====
-- src/async/io_reactor.hpp: firing, rearming and `poll`.
use Prim.Native.Nat.{bit_or}
use rain.Base.{
  ℕ, ◌+◌, ◌^◌, ◌%◌, Bool, true, false, not, ◌&&◌, ◌||◌, List, [], ◌∷◌, ◌++◌, Option, none, some,
  is_some, if◌then◌else◌, update, ℤ,
}
use rain.Core.{is_eintr, is_enoent, Syscall, returned, failed, from_errno, Result, ok, err}
use rain.Async.Concepts.{is_pending}
use rain.Async.Reactor.Slots.{
  IoEvent, read_event, write_event, edge_trig, one_shot, EpollEvents, to_epoll_events, CtlOp,
  ctl_add, ctl_mod, occurred, not_waited, Epoll, PendingEntry, FdEntry, Reactor, World,
  max_events_per_poll, slot_index, put_slot, reset_if,
}

module _ {K : Type 0} where
  abbrev pub set_reactor : World K → Reactor → World K
  set_reactor w r = record w { reactor = r }

  -- `fire` once the wait is decided: the result is written, then the handle becomes ready.
  abbrev store_result : Option ℕ → World K → World K
  store_result none w = w
  store_result (some p) w = record w { results = update w.results p (ok 0) }

  abbrev push_ready : Option ℕ → World K → Bool × World K
  push_ready none w = (false, w)
  push_ready (some h) w =
      (true, set_reactor w (record (w.reactor) { ready = w.reactor.ready ++ (h ∷ []) }))

  abbrev fire_state : PendingEntry → Option ℕ → World K → Bool × World K
  fire_state e none w = push_ready e.handle (store_result e.result w)
  fire_state e (some p) w =
      if is_pending (w.states p)
      then push_ready e.handle
          (store_result e.result (record w { states = update w.states p e.completion }))
      else (false, w)

  unfoldable pub fire : PendingEntry → World K → Bool × World K
  fire e w = fire_state e e.state w

  -- A direction of a slot, fired and reset if the event concerns it.
  abbrev pub fire_if : Bool → Option PendingEntry → ℕ × World K → ℕ × World K
  fire_if concerned none (n, w) = (n, w)
  fire_if concerned (some e) (n, w) =
      let (woke, w') = fire e w in
      if concerned then (if woke then (n + 1) % 2 ^ 32 else n, w') else (n, w)

module _ {K : Type 0} (epoll : Epoll K) where
  abbrev pub ctl : CtlOp → ℤ → Option EpollEvents → World K → Syscall × World K
  ctl op fd set w =
      let (r, k) = epoll.epoll_ctl w.reactor.epoll_fd op fd set w.kernel in
      (r, record w { kernel = k })

  -- `ensure`: modify the interest in a descriptor, or add it if the kernel does not know it.
  unfoldable pub ensure : ℤ → IoEvent → World K → Result (Unit {0}) × World K
  unfolding to_epoll_events
  ensure fd interest w =
      let (r, w') = ctl ctl_mod fd (some (to_epoll_events interest)) w in
      let (r2, w2) = ctl ctl_add fd (some (to_epoll_events interest)) w' in
      elim r [
        | returned n ↦ (ok tt, w')
        | failed e ↦
            if is_enoent e
            then elim r2 [ returned n ↦ (ok tt, w2) | failed e2 ↦ (err (from_errno e2), w2) ]
            else (err (from_errno e), w')
      ]

  abbrev pub interest_of : FdEntry → IoEvent
  interest_of e =
      let base = bit_or edge_trig one_shot in
      let with_read = if is_some e.read then bit_or base read_event else base in
      if is_some e.write then bit_or with_read write_event else with_read

  abbrev rearm_at : ℤ → Option ℕ → World K → World K
  rearm_at fd none w = w
  rearm_at fd (some i) w =
      let e = w.reactor.slots i in
      if not (is_some e.read) && not (is_some e.write) then w else (ensure fd (interest_of e) w).1

  unfoldable pub rearm_or_erase : ℤ → World K → World K
  unfolding ensure
  rearm_or_erase fd w = rearm_at fd (slot_index fd w.reactor) w

  -- One event of `poll`: both directions on an error or a hang-up.
  abbrev event_at : ℤ → EpollEvents → Option ℕ → ℕ × World K → ℕ × World K
  event_at fd ep none (n, w) = (n, w)
  event_at fd ep (some i) (n, w) =
      let e = w.reactor.slots i in
      let failing = ep.epoll_err || ep.epoll_hup in
      let for_read = ep.epoll_in || failing in
      let for_write = ep.epoll_out || failing in
      let (n1, w1) = fire_if for_read e.read (n, w) in
      let (n2, w2) = fire_if for_write e.write (n1, w1) in
      let e' : FdEntry = record {
        read = reset_if for_read e.read;
        write = reset_if for_write e.write;
      } in
      if not (is_some e.read) && not (is_some e.write)
      then (n, w)
      else (n2, rearm_or_erase fd (set_reactor w2 (put_slot i e' w2.reactor)))

  unfoldable pub handle_event : ℤ × EpollEvents → ℕ × World K → ℕ × World K
  unfolding rearm_or_erase fire
  handle_event (fd, ep) (n, w) = event_at fd ep (slot_index fd w.reactor) (n, w)

  unfoldable pub handle_events : List (ℤ × EpollEvents) → ℕ × World K → ℕ × World K
  handle_events [] s = s
  handle_events (ev ∷ evs) s = handle_events evs (handle_event ev s)

  -- `poll`, with the milliseconds that it passes on (-1 for a negative timeout).
  unfoldable pub poll : ℤ → World K → Result ℕ × World K
  poll timeout_ms w =
      let (r, k) = epoll.epoll_wait w.reactor.epoll_fd max_events_per_poll timeout_ms w.kernel in
      let w' : World K = record w { kernel = k } in
      elim r [
        | occurred evs ↦ let (n, w2) = handle_events evs (0, w') in (ok n, w2)
        | not_waited e ↦ if is_eintr e then (ok 0, w') else (err (from_errno e), w')
      ]
