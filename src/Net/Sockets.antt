-- ===== src/Net/Sockets.antt =====
-- src/net/socket_fd_ops.hpp, src/net/listener_socket_ops.hpp and src/net/listen_options.hpp: operations on
-- socket descriptors, and the binding of listeners, over an interface of system calls.
pub mod Balanced
mod Tests
use rain.Base.{
  ℕ, ℤ, pos, minus_one, is_negative, Bool, true, false, List, Option, none, some, if◌then◌else◌,
}
use rain.Core.{Errno, Syscall, returned, failed, SystemError, from_errno, Result, ok, err}
use rain.Async.Reactor.Slots.{Epoll, World}
use rain.Async.Reactor.Register.{remove}
use rain.Net.Address.{family, sockaddr_len}
use rain.Net.Awaiters.{from_raw}

pub data SocketOption : Type 0 where
  reuse_address reuse_port tcp_nodelay keepalive : SocketOption

-- Which address of a socket, and how `getpeername` and `getsockname` answer: storage and length.
pub data Named : Type 0 where
  named : List ℕ → ℕ → Named
  unnamed : Errno → Named

-- `get_flags` answers whether O_NONBLOCK is among the flags.
pub data Flags : Type 0 where
  flags : Bool → Flags
  no_flags : Errno → Flags

pub record SocketSystem (K : Type 0) : Type 0 where
  pub socket : ℕ → K → Syscall × K
  pub setsockopt : ℤ → SocketOption → Bool → K → Syscall × K
  pub bind : ℤ → List ℕ → ℕ → K → Syscall × K
  pub listen : ℤ → ℕ → K → Syscall × K
  pub get_flags : ℤ → K → Flags × K
  pub set_nonblock : ℤ → K → Syscall × K
  pub getpeername : ℤ → K → Named × K
  pub getsockname : ℤ → K → Named × K
  pub shutdown : ℤ → ℕ → K → Syscall × K
  pub close : ℤ → K → Syscall × K

pub record ListenOptions : Type 0 where
  pub backlog : ℕ
  pub reuse_addr : Bool
  pub reuse_port : Bool

abbrev pub default_listen : ListenOptions
default_listen = record { backlog = 128; reuse_addr = true; reuse_port = true }

abbrev pub to_result : Syscall → Result (Unit {0})
to_result (returned n) = ok tt
to_result (failed e) = err (from_errno e)

module _ {K : Type 0} (sys : SocketSystem K) where
  unfoldable pub ensure_nonblocking : ℤ → K → Result (Unit {0}) × K
  ensure_nonblocking fd k =
      let (r, k1) = sys.get_flags fd k in
      let (r2, k2) = sys.set_nonblock fd k1 in
      elim r [
        | no_flags e ↦ (err (from_errno e), k1)
        | flags nonblocking ↦ if nonblocking then (ok tt, k1) else (to_result r2, k2)
      ]

  unfoldable pub set_nodelay : ℤ → Bool → K → Result (Unit {0}) × K
  set_nodelay fd enable k =
      let (r, k') = sys.setsockopt fd SocketOption.tcp_nodelay enable k in (to_result r, k')

  unfoldable pub set_keepalive : ℤ → Bool → K → Result (Unit {0}) × K
  set_keepalive fd enable k =
      let (r, k') = sys.setsockopt fd SocketOption.keepalive enable k in (to_result r, k')

  -- `peer_address` and `local_address`, with a storage of zeros.
  abbrev address_of : List ℕ → Named × K → Result (List ℕ) × K
  unfolding from_raw
  address_of zeros (named raw len, k) = (ok (from_raw zeros raw len), k)
  address_of zeros (unnamed e, k) = (err (from_errno e), k)

  unfoldable pub peer_address : List ℕ → ℤ → K → Result (List ℕ) × K
  unfolding address_of
  peer_address zeros fd k = address_of zeros (sys.getpeername fd k)

  unfoldable pub local_address : List ℕ → ℤ → K → Result (List ℕ) × K
  unfolding address_of
  local_address zeros fd k = address_of zeros (sys.getsockname fd k)

  unfoldable pub shutdown_socket : ℤ → ℕ → K → Result (Unit {0}) × K
  shutdown_socket fd how k = let (r, k') = sys.shutdown fd how k in (to_result r, k')

  -- A call in the making of a listener, if it is wanted: where it fails, the socket is closed.
  unfoldable pub or_close : Bool → (K → Syscall × K) → ℤ → K → Option SystemError × K
  or_close wanted call fd k =
      let (r, k') = call k in
      if wanted
      then (elim r [
        | failed e ↦ (some (from_errno e), (sys.close fd k').1)
        | returned n ↦ (none, k')
      ])
      else (none, k)

  unfoldable pub bind_listener_socket : List ℕ → ListenOptions → K → Result ℤ × K
  bind_listener_socket addr opts k =
      let (r, k0) = sys.socket (family addr) k in
      elim r [
        | failed e ↦ (err (from_errno e), k0)
        | returned n ↦
            let fd = pos n in
            let (e1, k1) =
              or_close opts.reuse_addr (sys.setsockopt fd SocketOption.reuse_address true) fd k0 in
            let (e2, k2) =
              or_close opts.reuse_port (sys.setsockopt fd SocketOption.reuse_port true) fd k1 in
            let (e3, k3) = or_close true (sys.bind fd addr (sockaddr_len addr)) fd k2 in
            let (e4, k4) = or_close true (sys.listen fd opts.backlog) fd k3 in
            elim e1 [
              | some e ↦ (err e, k1)
              | none ↦ elim e2 [
                | some e ↦ (err e, k2)
                | none ↦ elim e3 [
                  | some e ↦ (err e, k3)
                  | none ↦ elim e4 [ some e ↦ (err e, k4) | none ↦ (ok fd, k4) ]
                ]
              ]
            ]
      ]

module _ {K : Type 0} (epoll : Epoll K) (sys : SocketSystem K) where
  -- `close_fd`: out of the reactor, if there is one, and closed in any case; the first error is answered,
  -- and the descriptor is -1 afterwards.
  unfoldable pub close_socket : Bool → ℤ → World K → Result (Unit {0}) × ℤ × World K
  close_socket has_reactor fd w =
      let (removed, w1) = if has_reactor then remove epoll fd w else (ok tt, w) in
      let (closed, k) = sys.close fd w1.kernel in
      let result : Result (Unit {0}) = elim removed [ err e ↦ err e | ok u ↦ to_result closed ] in
      if is_negative fd then (ok tt, fd, w) else (result, minus_one, record w1 { kernel = k })
