-- ===== src/Net/Awaiters/Race.antt =====
-- The race for a wait: everything that may decide the `WaitState` cells of a core, the reactor, the wheel and the
-- stop callbacks of src/async/timer.hpp, src/net/io_awaiters.hpp and src/net/accept_awaiter.hpp.
use rain.Base.{
  ℕ, ◌≡◌, refl, ◌∙◌, ap, update, inl, inr, false, true, not, ◌&&◌, Bool, Option, none, some,
  is_some, ℤ, arith, Bool-cases, Option-cases,
}
use rain.Async.Concepts.{WaitState, States, is_pending}
use rain.Async.Reactor.Slots.{Epoll, IoEvent, read_event, World, slot_index, put_slot}
use rain.Async.Reactor.Poll.{set_reactor}
use rain.Async.Reactor.Decided.{rearm-kernel}
use rain.Async.Reactor.Register.{deregister_dir}
use rain.Async.Race.{Core, Turn, Turn-decided}
use rain.Async.Loop.{Loop, notify}
use rain.Net.Awaiters.{
  AcceptAwaiter, world_of, set_state, notify_waiter, cancel_io_wait, cancel_accept,
}
use rain.Net.Awaiters.Freed.{freed}
use rain.Net.Awaiters.Timed.{TimedAwaiter, event_of, timed_cancel, deregister_its}

module _ {K : Type 0} (epoll : Epoll K) where
  deregister_dir-states :
      (fd : ℤ) (dir : IoEvent) (w : World K) → (deregister_dir epoll fd dir w).states ≡ w.states
  unfolding deregister_dir
  deregister_dir-states fd dir w = elim (Option-cases (slot_index fd w.reactor)) [
    | inl e ↦ simp e refl
    | inr (i, e) ↦
        let slot = w.reactor.slots i in
        let emptied = set_reactor w (put_slot i (freed dir slot) w.reactor) in
        let (table, states, results) = rearm-kernel epoll fd emptied in
        elim (Bool-cases (not (is_some slot.read) && not (is_some slot.write))) [
          | inl idle ↦ simp (e, idle) refl
          | inr busy ↦ simp (e, busy) states
        ]
  ]

  -- What may decide a wait: a turn of the reactor, of the wheel or of the stop callback of a sleep; the callback that
  -- waits for reading, writing and connecting share; that of an accept; and that of a wait with a timeout. A
  -- callback runs on the thread of the loop or on another one.
  pub data Decides (l : Loop K) : Loop K → Type 0 where
    core_turn : {d : Core K} → Turn epoll l.core d → Decides l (record l { core = d })
    io_stops :
        (on_loop : Bool) (fd : ℤ) (dir : IoEvent) (state : ℕ) (handle : Option ℕ)
        → Decides l (cancel_io_wait epoll on_loop fd dir state handle l)
    accept_stops :
        (on_loop : Bool) (a : AcceptAwaiter) → Decides l (cancel_accept epoll on_loop a l)
    timed_stops : (on_loop : Bool) (a : TimedAwaiter) → Decides l (timed_cancel epoll on_loop a l)

  pub data Race (l : Loop K) : Loop K → Type 0 where
    begin : Race l l
    then_turn : {m n : Loop K} → Race l m → Decides m n → Race l n

  notify_waiter-states :
      (on_loop : Bool) (h : Option ℕ) (l : Loop K)
      → (world_of (notify_waiter on_loop h l)).states ≡ (world_of l).states
  unfolding notify
  notify_waiter-states false h l = refl
  notify_waiter-states true none l = refl
  notify_waiter-states true (some h) l = refl

  -- A callback that acts only on a pending wait, on its own cell.
  only_pending :
      (S : States) (p state : ℕ)
      → is_pending (S p) ≡ false
      → is_pending (S state) ≡ true
      → update S state WaitState.cancelled p ≡ S p
  only_pending S p state decided waits = ground (arith, decided, waits)

  Decides-decided :
      (p : ℕ) {l m : Loop K}
      → Decides l m
      → is_pending ((world_of l).states p) ≡ false
      → (world_of m).states p ≡ (world_of l).states p
  unfolding cancel_io_wait cancel_accept timed_cancel deregister_its
  Decides-decided p (core_turn t) h = Turn-decided epoll p t h
  Decides-decided p {l} (io_stops on_loop fd dir state handle) h =
      elim (Bool-cases (is_pending ((world_of l).states state))) [
        | inr e ↦ rw (cancel_io_wait, e) refl
        | inl e ↦
            let w = world_of (set_state state WaitState.cancelled l) in
            rw (cancel_io_wait, e)
              (ap (λ f. f p)
                  (notify_waiter-states on_loop handle _ ∙ deregister_dir-states fd dir w)
                ∙ only_pending (world_of l).states p state h e)
      ]
  Decides-decided p {l} (accept_stops on_loop a) h =
      elim (Bool-cases (is_pending ((world_of l).states a.wait.state))) [
        | inr e ↦ rw (cancel_accept, e) refl
        | inl e ↦
            let w = world_of (set_state a.wait.state WaitState.cancelled l) in
            rw (cancel_accept, e)
              (ap (λ f. f p)
                  (notify_waiter-states on_loop a.wait.handle _
                    ∙ deregister_dir-states a.wait.fd read_event w)
                ∙ only_pending (world_of l).states p a.wait.state h e)
      ]
  Decides-decided p {l} (timed_stops on_loop a) h =
      elim (Bool-cases (is_pending ((world_of l).states a.wait.state))) [
        | inr e ↦ rw (timed_cancel, e) refl
        | inl e ↦
            let w = world_of (set_state a.wait.state WaitState.cancelled l) in
            rw (timed_cancel, e)
              (ap (λ f. f p)
                  (notify_waiter-states on_loop a.wait.handle _
                    ∙ deregister_dir-states a.wait.fd (event_of a.direction) w)
                ∙ only_pending (world_of l).states p a.wait.state h e)
      ]

  -- Whichever of readiness, a timer and a cancellation decides a wait first has decided it: no later turn of the
  -- reactor, of the wheel or of any stop callback, of whatever awaiter, changes the state of the wait.
  pub first_wins :
      (p : ℕ) {l m : Loop K}
      → is_pending ((world_of l).states p) ≡ false
      → Race l m
      → (world_of m).states p ≡ (world_of l).states p
  first_wins p h begin = refl
  first_wins p h (then_turn before t) =
      let e = first_wins p h before in Decides-decided p t (rw e h) ∙ e
