-- ===== src/Net/Tcp/Awaited.antt =====
-- The waits of src/net/tcp_stream.hpp and src/net/tcp_listener.hpp, and the table of open descriptors.
use rain.Base.{
  ℕ, ◌+◌, ◌≡◌, refl, ◌∙◌, ◌⊎◌, inl, inr, ℤ, pos, negsuc, List, Option, Bool, true, false, none,
  some, arith, subst, Bool-cases, is_some,
}
use rain.Core.{SystemError, Result, ok, err, Result-cases, closes, one_at, Errno}
use rain.Async.Concepts.{WaitState}
use rain.Async.Reactor.Slots.{
  to_epoll_events, ctl_mod, ctl_add, put_slot, ensure_slot, Epoll, EpollEvents, World, CtlOp,
  PendingEntry, FdEntry, IoEvent,
}
use rain.Async.Reactor.Poll.{set_reactor, ctl, ensure}
use rain.Async.Reactor.Register.{register_read, register_write, install}
use rain.Async.Loop.{Loop}
use rain.Net.Awaiters.{
  wait_entry, with_world, ReadyAwaiter, Accepted, accepted, not_accepted, AcceptAwaiter, world_of,
  connect_suspend, connect_resume, accept_ready, accept_suspend, accept_resume,
}
use rain.Net.Tcp.{
  Connecting, connect_incomplete, accept_incomplete, fresh_wait, fresh_cells, goes_on,
  await_connect, await_accept,
}

-- Descriptor `d` of what `accept4` answers.
abbrev pub takes : ℕ → Accepted → ℕ
takes d (accepted conn peer len) = closes d conn
takes d (not_accepted e) = 0

Accepted-cases :
    (r : Accepted)
    → ((conn : ℤ) × (peer : List ℕ) × (len : ℕ) × (r ≡ accepted conn peer len))
      ⊎ ((e : Errno) × (r ≡ not_accepted e))
Accepted-cases (accepted conn peer len) = inl (conn, peer, len, refl)
Accepted-cases (not_accepted e) = inr (e, refl)

-- The place of descriptor `d` in the table of open descriptors over the calls of the waits, as the system documents
-- them: `accept4` that answers `d` opens it, and its descriptors are not negative; the rest open and close none.
-- Nor does what happens while the coroutine waits open or close `d`.
pub record WaitCounts {K : Type 0} (epoll : Epoll K) (c : Connecting K) (d : ℕ) (opened : K → ℕ)
    : Type 0 where
  pub epoll_ctl_counts :
      (e : ℤ) (op : CtlOp) (fd : ℤ) (ev : Option EpollEvents) (k : K)
      → opened (epoll.epoll_ctl e op fd ev k).1 ≡ opened k
  pub getsockopt_counts : (fd : ℤ) (k : K) → opened (c.getsockopt fd k).1 ≡ opened k
  pub accept4_counts :
      (fd : ℤ) (k : K) → opened (c.accept4 fd k).1 ≡ opened k + takes d (c.accept4 fd k).0
  pub accepted_is_open :
      (fd : ℤ) (k : K) (conn : ℤ) (peer : List ℕ) (len : ℕ)
      → (c.accept4 fd k).0 ≡ accepted conn peer len
      → (n : ℕ) × (conn ≡ pos n)
  pub meanwhile_counts :
      (l : Loop K) → opened (world_of (c.meanwhile l)).kernel ≡ opened (world_of l).kernel

module _ {K : Type 0} (epoll : Epoll K) (c : Connecting K) (d : ℕ) (opened : K → ℕ)
    (counts : WaitCounts epoll c d opened) where
  ensure-counts :
      (fd : ℤ) (i : IoEvent) (w : World K) → opened (ensure epoll fd i w).1.kernel ≡ opened w.kernel
  unfolding ensure
  ensure-counts fd i w =
      let set = some (to_epoll_events i) in
      let w1 = (ctl epoll ctl_mod fd set w).1 in
      let first = counts.epoll_ctl_counts w.reactor.epoll_fd ctl_mod fd set w.kernel in
      let second = counts.epoll_ctl_counts w.reactor.epoll_fd ctl_add fd set w1.kernel in
      ground (arith, first, second)

  install-counts :
      (i : ℕ) (armed back : FdEntry) (interest : IoEvent) (w : World K)
      → opened (install epoll i armed back interest w).1.kernel ≡ opened w.kernel
  install-counts i armed back interest w =
      let installed = set_reactor w (put_slot i armed w.reactor) in
      let same = ensure-counts (pos i) interest installed in
      elim (Result-cases (ensure epoll (pos i) interest installed).0) [
        | inl (u, e) ↦ rw (install, e) same
        | inr (x, e) ↦ rw (install, e) same
      ]

  register_write-counts :
      (fd : ℤ) (p : PendingEntry) (w : World K)
      → opened (register_write epoll fd p w).1.kernel ≡ opened w.kernel
  unfolding register_write
  register_write-counts (negsuc n) p w = refl
  register_write-counts (pos i) p w =
      let e = (ensure_slot i w.reactor).slots i in
      elim (Bool-cases (is_some e.write)) [
        | inl busy ↦ rw (register_write, busy) refl
        | inr free ↦
            rw (register_write, free)
              (install-counts i _ _ _ (set_reactor w (ensure_slot i w.reactor)))
      ]

  register_read-counts :
      (fd : ℤ) (p : PendingEntry) (w : World K)
      → opened (register_read epoll fd p w).1.kernel ≡ opened w.kernel
  unfolding register_read
  register_read-counts (negsuc n) p w = refl
  register_read-counts (pos i) p w =
      let e = (ensure_slot i w.reactor).slots i in
      elim (Bool-cases (is_some e.read)) [
        | inl busy ↦ rw (register_read, busy) refl
        | inr free ↦
            rw (register_read, free)
              (install-counts i _ _ _ (set_reactor w (ensure_slot i w.reactor)))
      ]

  connect_suspend-counts :
      (a : ReadyAwaiter) (l : Loop K)
      → opened (world_of (connect_suspend epoll c.frame a l).2).kernel ≡ opened (world_of l).kernel
  unfolding connect_suspend
  connect_suspend-counts a l =
      let a' = record a { handle = some c.frame } in
      let same = register_write-counts a.fd (wait_entry c.frame a') (world_of l) in
      elim (Result-cases (register_write epoll a.fd (wait_entry c.frame a') (world_of l)).0) [
        | inl (u, e) ↦ rw (connect_suspend, e) same
        | inr (x, e) ↦ rw (connect_suspend, e) same
      ]

  accept_suspend-counts :
      (a : AcceptAwaiter) (l : Loop K)
      → opened (world_of (accept_suspend epoll c.frame a l).2).kernel ≡ opened (world_of l).kernel
  unfolding accept_suspend
  accept_suspend-counts a l =
      let a' = record (a.wait) { handle = some c.frame } in
      let same = register_read-counts a.wait.fd (wait_entry c.frame a') (world_of l) in
      elim (Result-cases (register_read epoll a.wait.fd (wait_entry c.frame a') (world_of l)).0) [
        | inl (u, e) ↦ rw (accept_suspend, e) same
        | inr (x, e) ↦ rw (accept_suspend, e) same
      ]

  goes_on-counts :
      (stays : Bool) (l : Loop K)
      → opened (world_of (goes_on epoll c stays l)).kernel ≡ opened (world_of l).kernel
  goes_on-counts true l = counts.meanwhile_counts l
  goes_on-counts false l = refl

  connect_resume-counts :
      (a : ReadyAwaiter) (l : Loop K)
      → opened (world_of (connect_resume c.getsockopt a l).2).kernel ≡ opened (world_of l).kernel
  unfolding connect_resume
  connect_resume-counts a l = ground (arith, counts.getsockopt_counts a.fd (world_of l).kernel)

  pub await_connect-counts :
      (fd : ℤ) (w : World K) → opened (await_connect epoll c fd w).1.kernel ≡ opened w.kernel
  unfolding await_connect
  await_connect-counts fd w =
      let l0 = fresh_cells epoll c connect_incomplete w in
      let (stays, a, l1) = connect_suspend epoll c.frame (fresh_wait epoll c fd) l0 in
      connect_resume-counts a (goes_on epoll c stays l1)
      ∙ goes_on-counts stays l1
      ∙ connect_suspend-counts (fresh_wait epoll c fd) l0

  -- A wait for a connection answers an error and opens no descriptor, or the one that it opened.
  abbrev pub Took : ℕ → Result (ℤ × List ℕ) → ℕ → Type 0
  Took before r after =
      ((x : SystemError) × (r ≡ err x) × (after ≡ before))
      ⊎ ((n : ℕ) × (peer : List ℕ) × (r ≡ ok (pos n, peer)) × (after ≡ before + one_at d n))

  accept_resume-eager :
      (a : AcceptAwaiter) (l : Loop K) (n before : ℕ) (peer : List ℕ) (len : ℕ)
      → a.eager ≡ some (pos n, peer, len)
      → opened (world_of l).kernel ≡ before + one_at d n
      → let (r, b, l') = accept_resume c.zeros c.accept4 a l in
        Took before r (opened (world_of l').kernel)
  unfolding accept_resume
  accept_resume-eager a l n before peer len e more = rw (accept_resume, e) (inr (n, _, refl, more))

  -- Of a wait that was cancelled, or not.
  accept_resume-Took :
      (a : AcceptAwaiter) (l : Loop K) (s : WaitState)
      → a.eager ≡ none
      → (world_of l).states a.wait.state ≡ s
      → let (r, b, l') = accept_resume c.zeros c.accept4 a l in
        Took (opened (world_of l).kernel) r (opened (world_of l').kernel)
  unfolding accept_resume
  accept_resume-Took a l WaitState.cancelled e at = rw (accept_resume, e, at) (inl (_, refl, refl))
  accept_resume-Took a l _ e at =
      let again = counts.accept4_counts a.wait.fd (world_of l).kernel in
      elim (Result-cases ((world_of l).results a.wait.readiness)) [
        | inr (x, bad) ↦ rw (accept_resume, e, at, bad) (inl (_, refl, refl))
        | inl (m, good) ↦ elim (Accepted-cases (c.accept4 a.wait.fd (world_of l).kernel).0) [
          | inr (x, none_there) ↦
              let same = rw none_there at again in
              rw (accept_resume, e, at, good, none_there) (inl (_, refl, omega (arith, same)))
          | inl (conn, peer, len, there) ↦
              let (n, is) =
                counts.accepted_is_open a.wait.fd (world_of l).kernel conn peer len there in
              let more = rw (there, is) at again in
              rw (accept_resume, e, at, good, there, is) (inr (n, _, refl, more))
        ]
      ]

  accept_ready-cases :
      (fd : ℤ) (l : Loop K)
      → let fresh : AcceptAwaiter = record { wait = fresh_wait epoll c fd; eager = none } in
        let (r, k) = c.accept4 fd (world_of l).kernel in
        let after = with_world l (record (world_of l) { kernel = k }) in
        ((n : ℕ) × (peer : List ℕ) × (len : ℕ) × (accept_ready c.accept4 fresh l
            ≡ (true, record fresh { eager = some (pos n, peer, len) }, after))
          × (opened k ≡ opened (world_of l).kernel + one_at d n))
        ⊎ ((accept_ready c.accept4 fresh l ≡ (false, fresh, after))
            × (opened k ≡ opened (world_of l).kernel))
  unfolding accept_ready
  accept_ready-cases fd l =
      let k = (world_of l).kernel in
      let first = counts.accept4_counts fd k in
      elim (Accepted-cases (c.accept4 fd k).0) [
        | inl (conn, peer, len, now) ↦
            let (n, is) = counts.accepted_is_open fd k conn peer len now in
            let more = rw (now, is) at first in
            inl (n, peer, len, rw (accept_ready, now, is) refl, more)
        | inr (x, not_yet) ↦
            let same = rw not_yet at first in
            inr (rw (accept_ready, not_yet) refl, omega (arith, same))
      ]

  accept_suspend-eager :
      (a : AcceptAwaiter) (l : Loop K) → (accept_suspend epoll c.frame a l).1.eager ≡ a.eager
  unfolding accept_suspend
  accept_suspend-eager a l = refl

  pub await_accept-Took :
      (fd : ℤ) (w : World K)
      → let (r, w') = await_accept epoll c fd w in Took (opened w.kernel) r (opened w'.kernel)
  unfolding await_accept
  await_accept-Took fd w =
      let fresh : AcceptAwaiter = record { wait = fresh_wait epoll c fd; eager = none } in
      let l = fresh_cells epoll c accept_incomplete w in
      let l0 = with_world l (record (world_of l) { kernel = (c.accept4 fd w.kernel).1 }) in
      elim (accept_ready-cases fd l) [
        | inl (n, peer, len, now, more) ↦
            rw (await_accept, now)
              (accept_resume-eager (record fresh { eager = some (pos n, peer, len) }) l0 n
                (opened w.kernel) peer len refl more)
        | inr (not_yet, same) ↦
            let (stays, a1, l1) = accept_suspend epoll c.frame fresh l0 in
            let l2 = goes_on epoll c stays l1 in
            let kept : opened (world_of l2).kernel ≡ opened w.kernel =
              goes_on-counts stays l1 ∙ accept_suspend-counts fresh l0 ∙ same in
            let (r, b, l3) = accept_resume c.zeros c.accept4 a1 l2 in
            rw (await_accept, not_yet)
              (subst (λ m. Took m r (opened (world_of l3).kernel)) kept
                (accept_resume-Took a1 l2 ((world_of l2).states a1.wait.state)
                  (accept_suspend-eager fresh l0) refl))
      ]
