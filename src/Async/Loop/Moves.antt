-- ===== src/Async/Loop/Moves.antt =====
-- The moves of src/async/event_loop.hpp and src/async/io_reactor.hpp, and what the destructor of a
-- loop closes.
use Prim.Native.Nat.{bit_or}
use rain.Base.{ℕ, ◌-◌, ◌≡◌, refl, inl, inr, pos, minus_one, false, [], subst}
use rain.Core.{Result, ok, err, Syscall-outcome, Result-cases}
use rain.Async.Concepts.{States}
use rain.Async.Reactor.Slots.{
  Epoll, Reactor, World, empty_entry, make_reactor, read_event, edge_trig,
}
use rain.Async.Reactor.Poll.{set_reactor}
use rain.Async.Reactor.Register.{create_reactor, close_reactor, add}
use rain.Async.Loop.{LoopSystem, Loop, with_kernel, create, destroy}
use rain.Async.Loop.Descriptors.{Counts, both_closed, held_one}

-- What is taken over, and what is left behind.
unfoldable pub move_reactor : Reactor → Reactor × Reactor
move_reactor r =
    (r, record r { epoll_fd = minus_one; slots = λ i. empty_entry; slots_size = 0; ready = [] })

-- The destructor of a reactor, and the move assignment from another object: what the other holds then, and the
-- world.
module _ {K : Type 0} (epoll : Epoll K) where
  unfoldable pub destroy_reactor : World K → World K
  destroy_reactor w = (close_reactor epoll w).1

  unfoldable pub assign_reactor : Reactor → World K → Reactor × World K
  unfolding destroy_reactor move_reactor
  assign_reactor other w =
      let (taken, left) = move_reactor other in (left, set_reactor (destroy_reactor w) taken)

  -- Of what is left of the other, the destructor closes nothing.
  pub destroy-assigned :
      (other : Reactor) (w : World K)
      → (destroy_reactor (set_reactor w (assign_reactor other w).0)).kernel ≡ w.kernel
  unfolding destroy_reactor assign_reactor move_reactor close_reactor
  destroy-assigned other w = refl

-- A moved stop source has no state; of the wheel nothing is read afterwards.
unfoldable pub move_loop : {K : Type 0} → Loop K → Loop K × Loop K
unfolding move_reactor
move_loop l =
    let (taken, left) = move_reactor (l.core).world.reactor in
    let w = record ((l.core).world) { reactor = left } in
    (
      record l { core = record (l.core) { world = record ((l.core).world) { reactor = taken } } },
      record l {
        core = record (l.core) { world = w };
        owned_tasks = [];
        ready_queue = [];
        stop_requested = false;
        graceful_requested = false;
        served = [];
        cross_core_fd = minus_one;
        cross_core_queue = [];
      },
    )

-- The two descriptors of a loop.
pub record Owns {K : Type 0} (l : Loop K) : Type 0 where
  pub reactor_fd : ℕ
  pub wake_fd : ℕ
  pub reactor_at : l.core.world.reactor.epoll_fd ≡ pos reactor_fd
  pub wake_at : l.cross_core_fd ≡ pos wake_fd

module _ {K : Type 0} (system : LoopSystem K) where
  -- A husk has nothing to close.
  pub destroy-left : (l : Loop K) (k : K) → destroy system (with_kernel (move_loop l).1 k) ≡ k
  unfolding destroy move_loop close_reactor
  destroy-left l k = refl

  pub move-Owns : (l : Loop K) → Owns l → Owns (move_loop l).0
  unfolding move_loop
  move-Owns l o = record {
    reactor_fd = o.reactor_fd;
    wake_fd = o.wake_fd;
    reactor_at = o.reactor_at;
    wake_at = o.wake_at;
  }

  abbrev OwnsResult : Result (Loop K) → Type 0
  OwnsResult (ok l) = Owns l
  OwnsResult (err e) = Unit

  create-OwnsResult :
      (states : States) (results : ℕ → Result ℕ) (k : K)
      → OwnsResult (create system states results k).0
  unfolding create create_reactor add
  create-OwnsResult states results k =
      let k1 = (system.epoll.epoll_create k).1 in
      let k2 = (system.eventfd k1).1 in
      elim (Syscall-outcome (system.epoll.epoll_create k).0) [
        | inr (x, e1) ↦ simp e1 tt
        | inl (fd, e1) ↦ elim (Syscall-outcome (system.eventfd k1).0) [
          | inr (x, e2) ↦ simp (e1, e2) tt
          | inl (wfd, e2) ↦
              let w : World K = record {
                reactor = make_reactor (pos fd);
                states = states;
                results = results;
                kernel = k2;
              } in
              let interest = bit_or read_event edge_trig in
              elim (Result-cases (add system.epoll (pos wfd) interest w).0) [
                | inr (x, e3) ↦ simp (e1, e2, e3) tt
                | inl (u, e3) ↦
                    simp (e1, e2, e3)
                      (record { reactor_fd = fd; wake_fd = wfd; reactor_at = refl; wake_at = refl })
              ]
        ]
      ]

  pub create-Owns :
      (states : States) (results : ℕ → Result ℕ) (k : K) (l : Loop K)
      → (create system states results k).0 ≡ ok l
      → Owns l
  create-Owns states results k l h = subst OwnsResult h (create-OwnsResult states results k)

  pub destroy-Owns :
      (d : ℕ) (opened : K → ℕ) (counts : Counts system d opened) (l : Loop K) (k : K)
      → Owns l
      → opened (destroy system (with_kernel l k)) ≡ opened k - held_one d l
  unfolding destroy close_reactor
  destroy-Owns d opened counts l k o =
      rw (destroy, o.wake_at, close_reactor, o.reactor_at)
        (both_closed system d opened counts o.wake_fd o.reactor_fd k)
