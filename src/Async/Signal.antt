-- ===== src/Async/Signal.antt =====
-- src/async/signal.hpp: SignalSet, a signalfd with the mask that it found, and SignalAwaiter; and the members of
-- src/async/event_loop.hpp that have to do with signals.
pub mod Restored
mod Tests
use rain.Base.{
  ℕ, zero, suc, ◌-◌, ◌^◌, ℤ, pos, negsuc, minus_one, is_negative, Bool, true, false, not, ◌&&◌,
  List, [], ◌∷◌, Option, none, some, is_some, ltb, ◌==◌, if◌then◌else◌, update,
}
use rain.Core.{
  Errno, Syscall, returned, failed, SystemError, made, from_errno, Errc, Result, ok, err,
}
use rain.Async.Concepts.{WaitState}
use rain.Async.Reactor.Slots.{Epoll, PendingEntry, World}
use rain.Async.Reactor.Register.{register_read, close_reactor}
use rain.Async.Loop.{LoopSystem, Loop, kernel_of, with_kernel}

-- What the program reads of a `signalfd_siginfo`: three numbers of 32 bits without a sign.
pub record RawInfo : Type 0 where
  pub ssi_signo : ℕ
  pub ssi_pid : ℕ
  pub ssi_uid : ℕ

pub record SignalInfo : Type 0 where
  pub signo : ℤ
  pub pid : ℤ
  pub uid : ℤ

-- `static_cast<i32>` of a number of 32 bits.
abbrev pub to_i32 : ℕ → ℤ
to_i32 n = if ltb n (2 ^ 31) then pos n else negsuc (2 ^ 32 - 1 - n)

unfoldable pub from_raw_info : RawInfo → SignalInfo
from_raw_info raw = record {
  signo = to_i32 raw.ssi_signo;
  pid = to_i32 raw.ssi_pid;
  uid = to_i32 raw.ssi_uid;
}

-- The two uses of `pthread_sigmask`, and a read of a signalfd: the number of bytes with the structure, or how
-- it failed.
pub data How : Type 0 where
  sig_block sig_setmask : How

pub data ReadInfo : Type 0 where
  info : ℕ → RawInfo → ReadInfo
  no_info : Errno → ReadInfo

-- The calls on signals. `pthread_sigmask` answers a number and the mask that it found; the mask is that of the
-- calling thread.
pub record SignalSystem (K Mask : Type 0) : Type 0 where
  pub sigemptyset : Mask
  pub sigaddset : ℤ → Mask → Mask
  pub pthread_sigmask : How → Mask → K → ℤ × Mask × K
  pub signalfd : Mask → K → Syscall × K
  pub read_info : ℤ → K → ReadInfo × K
  pub close_signalfd : ℤ → K → Syscall × K
  pub last_errno : K → Errno

pub record SignalSet (Mask : Type 0) : Type 0 where
  pub fd : ℤ
  pub mask : Mask
  pub old_mask : Mask

abbrev pub sizeof_info : ℕ
sizeof_info = 128

abbrev pub short_read : SystemError
short_read = made Errc.message_size "signalfd short read"

abbrev pub not_configured : SystemError
not_configured = made Errc.operation_not_permitted "signals not configured; call add_signals first"

module _ {K Mask : Type 0} (sys : SignalSystem K Mask) where
  -- The mask that `create` builds, one signal after the other.
  abbrev pub add_all : List ℤ → Mask → Mask
  add_all [] mask = mask
  add_all (s ∷ ss) mask = add_all ss (sys.sigaddset s mask)

  abbrev pub mask_for : List ℤ → Mask
  mask_for signals = add_all signals sys.sigemptyset

  unfoldable pub create_set : List ℤ → K → Result (SignalSet Mask) × K
  create_set signals k =
      let mask = mask_for signals in
      let (r, old, k1) = sys.pthread_sigmask How.sig_block mask k in
      let (f, k2) = sys.signalfd mask k1 in
      let (r2, blocked, k3) = sys.pthread_sigmask How.sig_setmask old k2 in
      if is_negative r then (err (from_errno (sys.last_errno k1)), k1) else elim f [
        | failed e ↦ (err (from_errno (sys.last_errno k3)), k3)
        | returned fd ↦ (ok (record { fd = pos fd; mask = mask; old_mask = old }), k2)
      ]

  -- `close`: the descriptor, then the mask; the first error is answered.
  unfoldable pub close_set : SignalSet Mask → K → Result (Unit {0}) × SignalSet Mask × K
  close_set s k =
      let (c, k1) = sys.close_signalfd s.fd k in
      let (r, found, k2) = sys.pthread_sigmask How.sig_setmask s.old_mask k1 in
      let result : Result (Unit {0}) = elim c [
        | failed e ↦ err (from_errno e)
        | returned n ↦ if is_negative r then err (from_errno (sys.last_errno k2)) else ok tt
      ] in
      if is_negative s.fd then (ok tt, s, k) else (result, record s { fd = minus_one }, k2)

  unfoldable pub read_signal : SignalSet Mask → K → Result SignalInfo × K
  unfolding from_raw_info
  read_signal s k =
      let (r, k') = sys.read_info s.fd k in
      elim r [
        | no_info e ↦ (err (from_errno e), k')
        | info n raw ↦
            if n == sizeof_info then (ok (from_raw_info raw), k') else (err short_read, k')
      ]

  -- The move constructor: the new set and what is left of the other.
  unfoldable pub move_set : SignalSet Mask → SignalSet Mask × SignalSet Mask
  move_set other = (other, record other { fd = minus_one })

  -- The move assignment from another set: what each holds then.
  unfoldable pub assign_set :
      SignalSet Mask → SignalSet Mask → K → SignalSet Mask × SignalSet Mask × K
  unfolding close_set move_set
  assign_set s other k =
      let (r, closed, k') = close_set s k in let (taken, left) = move_set other in (taken, left, k')

  unfoldable pub set_valid : SignalSet Mask → Bool
  set_valid s = not (is_negative s.fd)

-- SignalAwaiter, of which `readiness` is the address of `readiness_`. `await_ready` answers `false`, so each
-- wait begins with `signal_suspend`.
abbrev pub signal_entry : ℕ → ℕ → PendingEntry
signal_entry h readiness = record {
  handle = some h;
  result = some readiness;
  state = none;
  completion = WaitState.ready;
}

module _ {K Mask : Type 0} where
  unfoldable pub signal_suspend : Epoll K → ℕ → ℕ → SignalSet Mask → World K → Bool × World K
  signal_suspend epoll h readiness s w =
      let (r, w') = register_read epoll s.fd (signal_entry h readiness) w in
      elim r [
        | ok u ↦ (true, w')
        | err e ↦ (false, record w' { results = update w'.results readiness (err e) })
      ]

  unfoldable pub signal_resume :
      SignalSystem K Mask → ℕ → SignalSet Mask → World K → Result SignalInfo × World K
  unfolding read_signal
  signal_resume sys readiness s w =
      let (r, k) = read_signal sys s w.kernel in
      elim (w.results readiness) [ err e ↦ (err e, w) | ok n ↦ (r, record w { kernel = k }) ]

-- EventLoop with its `signals_`.
pub record SignalLoop (K Mask : Type 0) : Type 0 where
  pub loop : Loop K
  pub signals : Option (SignalSet Mask)

abbrev pub thread_of : {K Mask : Type 0} → SignalLoop K Mask → K
thread_of l = kernel_of l.loop

module _ {K Mask : Type 0} (sys : SignalSystem K Mask) where
  -- The end of a SignalSet that an optional holds: its destructor.
  unfoldable pub drop_signals : Option (SignalSet Mask) → K → K
  drop_signals none k = k
  drop_signals (some s) k = (close_set sys s k).2

  -- `emplace` ends what the optional held before.
  unfoldable pub add_signals : List ℤ → SignalLoop K Mask → Result (Unit {0}) × SignalLoop K Mask
  add_signals signals l =
      let (r, k) = create_set sys signals (thread_of l) in
      elim r [
        | err e ↦ (err e, record l { loop = with_kernel (l.loop) k })
        | ok s ↦
            let k' = drop_signals l.signals k in
            (ok tt, record { loop = with_kernel (l.loop) k'; signals = some s })
      ]

  -- The set that the awaiter of `wait_signal` waits for.
  unfoldable pub wait_signal : SignalLoop K Mask → Result (SignalSet Mask)
  wait_signal l = elim l.signals [ none ↦ err not_configured | some s ↦ ok s ]

  unfoldable pub has_signals : SignalLoop K Mask → Bool
  has_signals l = is_some l.signals

  -- The destructor of the loop, then those of its members: of the signals before the reactor.
  unfoldable pub destroy_loop : LoopSystem K → SignalLoop K Mask → K
  destroy_loop system l =
      let k =
        if is_negative (l.loop).cross_core_fd
        then thread_of l
        else system.close_eventfd (l.loop).cross_core_fd (thread_of l) in
      let k' = drop_signals l.signals k in
      (close_reactor system.epoll (with_kernel (l.loop) k').core.world).1.kernel
