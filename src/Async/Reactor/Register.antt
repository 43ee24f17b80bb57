-- ===== src/Async/Reactor/Register.antt =====
-- src/async/io_reactor.hpp: registering and removing waits, and the life of the reactor.
use Prim.Native.Nat.{bit_or}
use rain.Base.{
  ℕ, Bool, true, false, not, ◌&&◌, Option, none, some, is_some, if◌then◌else◌, ℤ, pos, negsuc,
  is_negative, minus_one,
}
use rain.Core.{Errno, returned, failed, SystemError, made, from_errno, Errc, Result, ok, err}
use rain.Async.Reactor.Slots.{
  IoEvent, read_event, write_event, edge_trig, one_shot, has_flag, to_epoll_events, ctl_add,
  ctl_mod, ctl_del, Epoll, PendingEntry, FdEntry, Reactor, World, make_reactor, slot_index,
  ensure_slot, put_slot, clear_slot, reset_if,
}
use rain.Async.Reactor.Poll.{set_reactor, ctl, ensure, rearm_or_erase}

abbrev pub bad_read : SystemError
bad_read = made Errc.bad_file_descriptor "register_read: negative fd"

abbrev pub busy_read : SystemError
busy_read = made Errc.device_or_resource_busy "register_read: read already pending on fd"

abbrev pub bad_write : SystemError
bad_write = made Errc.bad_file_descriptor "register_write: negative fd"

abbrev pub busy_write : SystemError
busy_write = made Errc.device_or_resource_busy "register_write: write already pending on fd"

module _ {K : Type 0} (epoll : Epoll K) where
  -- The entry is installed and `ensure` called; where that fails the direction is reset.
  abbrev pub install : ℕ → FdEntry → FdEntry → IoEvent → World K → Result (Unit {0}) × World K
  install i armed back interest w =
      let (r, w') = ensure epoll (pos i) interest (set_reactor w (put_slot i armed w.reactor)) in
      elim r [ ok u ↦ (ok tt, w') | err e ↦ (err e, set_reactor w' (put_slot i back w'.reactor)) ]

  unfoldable pub register_read : ℤ → PendingEntry → World K → Result (Unit {0}) × World K
  unfolding ensure
  register_read (negsuc n) entry w = (err bad_read, w)
  register_read (pos i) entry w =
      let w' = set_reactor w (ensure_slot i w.reactor) in
      let e = w'.reactor.slots i in
      let base = bit_or (bit_or read_event edge_trig) one_shot in
      let interest = if is_some e.write then bit_or base write_event else base in
      if is_some e.read
      then (err busy_read, w')
      else install i (record e { read = some entry }) (record e { read = none }) interest w'

  unfoldable pub register_write : ℤ → PendingEntry → World K → Result (Unit {0}) × World K
  unfolding ensure
  register_write (negsuc n) entry w = (err bad_write, w)
  register_write (pos i) entry w =
      let w' = set_reactor w (ensure_slot i w.reactor) in
      let e = w'.reactor.slots i in
      let base = bit_or (bit_or write_event edge_trig) one_shot in
      let interest = if is_some e.read then bit_or base read_event else base in
      if is_some e.write
      then (err busy_write, w')
      else install i (record e { write = some entry }) (record e { write = none }) interest w'

  unfoldable pub deregister : ℤ → World K → World K
  deregister fd w = set_reactor w (clear_slot fd w.reactor)

  abbrev deregister_at : ℤ → IoEvent → Option ℕ → World K → World K
  deregister_at fd dir none w = w
  deregister_at fd dir (some i) w =
      let e = w.reactor.slots i in
      let e' : FdEntry = record {
        read = reset_if (has_flag dir read_event) e.read;
        write = reset_if (has_flag dir write_event) e.write;
      } in
      if not (is_some e.read) && not (is_some e.write)
      then w
      else rearm_or_erase epoll fd (set_reactor w (put_slot i e' w.reactor))

  -- `deregister(fd, dir)`: the other direction is armed again.
  unfoldable pub deregister_dir : ℤ → IoEvent → World K → World K
  unfolding rearm_or_erase
  deregister_dir fd dir w = deregister_at fd dir (slot_index fd w.reactor) w

  unfoldable pub add : ℤ → IoEvent → World K → Result (Unit {0}) × World K
  unfolding to_epoll_events
  add fd interest w =
      let (r, w') = ctl epoll ctl_add fd (some (to_epoll_events interest)) w in
      (elim r [ returned n ↦ ok tt | failed e ↦ err (from_errno e) ], w')

  unfoldable pub modify : ℤ → IoEvent → World K → Result (Unit {0}) × World K
  unfolding to_epoll_events
  modify fd interest w =
      let (r, w') = ctl epoll ctl_mod fd (some (to_epoll_events interest)) w in
      (elim r [ returned n ↦ ok tt | failed e ↦ err (from_errno e) ], w')

  abbrev is_gone : Errno → Bool
  is_gone Errno.enoent = true
  is_gone Errno.ebadf = true
  is_gone e = false

  unfoldable pub remove : ℤ → World K → Result (Unit {0}) × World K
  unfolding deregister
  remove fd w =
      let (r, w') = ctl epoll ctl_del fd none w in
      if is_negative fd then (ok tt, w) else elim r [
        | returned n ↦ (ok tt, deregister fd w')
        | failed e ↦ if is_gone e then (ok tt, deregister fd w') else (err (from_errno e), w')
      ]

  unfoldable pub close_reactor : World K → Result (Unit {0}) × World K
  close_reactor w =
      let (r, k) = epoll.close_epoll w.reactor.epoll_fd w.kernel in
      let result : Result (Unit {0}) = elim r [
        | returned n ↦ ok tt
        | failed e ↦ err (from_errno e)
      ] in
      if is_negative w.reactor.epoll_fd
      then (ok tt, set_reactor w (make_reactor w.reactor.epoll_fd))
      else (result, record w { reactor = make_reactor minus_one; kernel = k })

  unfoldable pub create_reactor : K → Result Reactor × K
  create_reactor k =
      let (r, k') = epoll.epoll_create k in
      (elim r [ returned fd ↦ ok (make_reactor (pos fd)) | failed e ↦ err (from_errno e) ], k')
