-- ===== src/Async/Loop/Descriptors.antt =====
-- The descriptors of an event loop: those that `create` opens are closed when it fails, and by the destructor.
use Prim.Native.Nat.{bit_or}
use rain.Base.{ℕ, ◌+◌, ◌-◌, ◌≡◌, refl, ◌⊎◌, inl, inr, ℤ, pos, Option, arith}
use rain.Core.{Syscall-outcome, Result, ok, err, Result-cases, SystemError, one_at, opens, closes}
use rain.Async.Concepts.{States}
use rain.Async.Reactor.Slots.{World, make_reactor, EpollEvents, CtlOp, read_event, edge_trig}
use rain.Async.Reactor.Register.{create_reactor, close_reactor, add}
use rain.Async.Loop.{LoopSystem, Loop, kernel_of, create, destroy}

-- The place of descriptor `d` in the process's table of open descriptors, as the system documents it: 1 where it
-- is open and 0 where it is not. A call that answers `d` opens it, closing `d` takes it away (and does nothing
-- where it is not open), and no other call changes it.
pub record Counts {K : Type 0} (system : LoopSystem K) (d : ℕ) (opened : K → ℕ) : Type 0 where
  pub epoll_create_counts :
      (k : K)
      → opened (system.epoll.epoll_create k).1 ≡ opened k + opens d (system.epoll.epoll_create k).0
  pub eventfd_counts :
      (k : K) → opened (system.eventfd k).1 ≡ opened k + opens d (system.eventfd k).0
  pub epoll_ctl_counts :
      (e : ℤ) (op : CtlOp) (fd : ℤ) (ev : Option EpollEvents) (k : K)
      → opened (system.epoll.epoll_ctl e op fd ev k).1 ≡ opened k
  pub close_eventfd_counts :
      (fd : ℕ) (k : K) → opened (system.close_eventfd (pos fd) k) ≡ opened k - one_at d fd
  pub close_epoll_counts :
      (fd : ℕ) (k : K) → opened (system.epoll.close_epoll (pos fd) k).1 ≡ opened k - one_at d fd
  pub now_counts : (k : K) → opened (system.now k).1 ≡ opened k

-- The two descriptors of a loop, at `d`.
abbrev pub held_one : {K : Type 0} → ℕ → Loop K → ℕ
held_one d l = closes d l.cross_core_fd + closes d l.core.world.reactor.epoll_fd

module _ {K : Type 0} (system : LoopSystem K) (d : ℕ) (opened : K → ℕ)
    (counts : Counts system d opened) where
  pub both_closed :
      (wfd fd : ℕ) (k : K)
      → opened (system.epoll.close_epoll (pos fd) (system.close_eventfd (pos wfd) k)).1
        ≡ opened k - (one_at d wfd + one_at d fd)
  both_closed wfd fd k =
      let first = counts.close_eventfd_counts wfd k in
      let second = counts.close_epoll_counts fd (system.close_eventfd (pos wfd) k) in
      omega (arith, first, second)

  -- `create` that fails leaves the table of open descriptors as it was; if it succeeds the two of the loop are
  -- open besides, and its destructor closes these.
  pub create-balanced :
      (states : States) (results : ℕ → Result ℕ) (k : K)
      → let (r, k') = create system states results k in
        ((e : SystemError) × (r ≡ err e) × (opened k' ≡ opened k))
        ⊎ ((l : Loop K) × (r ≡ ok l)
            × (opened k' ≡ opened k + held_one d l)
            × (kernel_of l ≡ k')
            × (opened (destroy system l) ≡ opened k))
  unfolding create destroy create_reactor close_reactor add
  create-balanced states results k =
      let k1 = (system.epoll.epoll_create k).1 in
      let k2 = (system.eventfd k1).1 in
      let made = counts.epoll_create_counts k in
      let woken = counts.eventfd_counts k1 in
      elim (Syscall-outcome (system.epoll.epoll_create k).0) [
        | inl (fd, e1) ↦
            let made' : opened k1 ≡ opened k + one_at d fd = rw e1 at made in
            elim (Syscall-outcome (system.eventfd k1).0) [
              | inl (wfd, e2) ↦
                  let woken' : opened k2 ≡ opened k1 + one_at d wfd = rw e2 at woken in
                  let w : World K = record {
                    reactor = make_reactor (pos fd);
                    states = states;
                    results = results;
                    kernel = k2;
                  } in
                  let interest = bit_or read_event edge_trig in
                  let k3 = (add system.epoll (pos wfd) interest w).1.kernel in
                  let added : opened k3 ≡ opened k2 = counts.epoll_ctl_counts _ _ _ _ k2 in
                  let k4 = (system.now k3).1 in
                  let timed = counts.now_counts k3 in
                  elim (Result-cases (add system.epoll (pos wfd) interest w).0) [
                    | inl (u, e3) ↦
                        let closed = both_closed wfd fd k4 in
                        simp (e1, e2, e3)
                          (inr (
                            _,
                            refl,
                            omega (arith, timed, added, woken', made'),
                            refl,
                            omega (arith, closed, timed, added, woken', made'),
                          ))
                    | inr (x, e3) ↦
                        let closed = both_closed wfd fd k3 in
                        simp (e1, e2, e3)
                          (inl (_, refl, omega (arith, closed, added, woken', made')))
                  ]
              | inr (x, e2) ↦
                  let woken' : opened k2 ≡ opened k1 + 0 = rw e2 at woken in
                  let gone = counts.close_epoll_counts fd k2 in
                  simp (e1, e2) (inl (_, refl, omega (arith, gone, woken', made')))
            ]
        | inr (x, e1) ↦
            let made' : opened k1 ≡ opened k + 0 = rw e1 at made in
            simp e1 (inl (_, refl, omega (arith, made')))
      ]
