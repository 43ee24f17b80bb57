-- ===== src/Async/Reactor/Slots.antt =====
-- src/async/io_reactor.hpp: event sets, waiting entries and the table of slots.
use Prim.Native.Nat.{bit_and}
use rain.Base.{
  ◌≡◌, refl, ◌⊎◌, inl, inr, ℕ, ◌+◌, Bool, not, List, [], ◌++◌, Option, none, some, leb, ◌==◌,
  if◌then◌else◌, update, ℤ, pos, negsuc, is_negative,
}
use rain.Core.{Errno, Syscall, Result}
use rain.Async.Concepts.{WaitState, States}

-- `IoEvent`, a set of flags.
abbrev pub IoEvent : Type 0
IoEvent = ℕ

abbrev pub read_event : IoEvent
read_event = 1

abbrev pub write_event : IoEvent
write_event = 2

abbrev pub error_event : IoEvent
error_event = 4

abbrev pub hang_up : IoEvent
hang_up = 8

abbrev pub edge_trig : IoEvent
edge_trig = 16

abbrev pub one_shot : IoEvent
one_shot = 32

abbrev pub has_flag : IoEvent → IoEvent → Bool
has_flag set flag = bit_and set flag == flag

-- The event sets of epoll, one field for each bit that the program uses.
pub record EpollEvents : Type 0 where
  pub epoll_in : Bool
  pub epoll_out : Bool
  pub epoll_err : Bool
  pub epoll_hup : Bool
  pub epoll_et : Bool
  pub epoll_oneshot : Bool

unfoldable pub to_epoll_events : IoEvent → EpollEvents
to_epoll_events ev = record {
  epoll_in = has_flag ev read_event;
  epoll_out = has_flag ev write_event;
  epoll_err = has_flag ev error_event;
  epoll_hup = has_flag ev hang_up;
  epoll_et = has_flag ev edge_trig;
  epoll_oneshot = has_flag ev one_shot;
}

pub data CtlOp : Type 0 where
  ctl_add ctl_mod ctl_del : CtlOp

pub data Waited : Type 0 where
  occurred : List (ℤ × EpollEvents) → Waited
  not_waited : Errno → Waited

pub Waited-cases :
    (r : Waited)
    → ((evs : List (ℤ × EpollEvents)) × (r ≡ occurred evs)) ⊎ ((e : Errno) × (r ≡ not_waited e))
Waited-cases (occurred evs) = inl (evs, refl)
Waited-cases (not_waited e) = inr (e, refl)

pub record Epoll (K : Type 0) : Type 0 where
  pub epoll_create : K → Syscall × K
  pub epoll_ctl : ℤ → CtlOp → ℤ → Option EpollEvents → K → Syscall × K
  pub epoll_wait : ℤ → ℕ → ℤ → K → Waited × K
  pub close_epoll : ℤ → K → Syscall × K

pub record PendingEntry : Type 0 where
  pub handle : Option ℕ
  pub result : Option ℕ
  pub state : Option ℕ
  pub completion : WaitState

pub record FdEntry : Type 0 where
  pub read : Option PendingEntry
  pub write : Option PendingEntry

pub record Reactor : Type 0 where
  pub epoll_fd : ℤ
  pub slots : ℕ → FdEntry
  pub slots_size : ℕ
  pub ready : List ℕ

-- The reactor, the cells that awaiters own, and the kernel.
pub record World (K : Type 0) : Type 0 where
  pub reactor : Reactor
  pub states : States
  pub results : ℕ → Result ℕ
  pub kernel : K

abbrev pub empty_entry : FdEntry
empty_entry = record { read = none; write = none }

abbrev pub max_events_per_poll : ℕ
max_events_per_poll = 256

abbrev pub make_reactor : ℤ → Reactor
make_reactor fd = record { epoll_fd = fd; slots = λ i. empty_entry; slots_size = 0; ready = [] }

-- The index of a descriptor in `slots_`, if it is in range.
abbrev pub slot_index : ℤ → Reactor → Option ℕ
slot_index (negsuc n) r = none
slot_index (pos i) r = if leb r.slots_size i then none else some i

-- `ensure_slot` for a descriptor that is not negative.
abbrev pub ensure_slot : ℕ → Reactor → Reactor
ensure_slot i r = if leb r.slots_size i then record r { slots_size = i + 1 } else r

abbrev pub put_slot : ℕ → FdEntry → Reactor → Reactor
put_slot i e r = record r { slots = update r.slots i e }

abbrev clear_at : Reactor → Option ℕ → Reactor
clear_at r none = r
clear_at r (some i) = put_slot i empty_entry r

unfoldable pub clear_slot : ℤ → Reactor → Reactor
clear_slot fd r = clear_at r (slot_index fd r)

unfoldable pub reactor_drain_ready_into : List ℕ → Reactor → List ℕ × Reactor
reactor_drain_ready_into out r = (out ++ r.ready, record r { ready = [] })

unfoldable pub reactor_valid : Reactor → Bool
reactor_valid r = not (is_negative r.epoll_fd)

abbrev pub reset_if : Bool → Option PendingEntry → Option PendingEntry
reset_if concerned e = if concerned then none else e
