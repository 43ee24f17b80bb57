-- ===== src/Net/Tcp.antt =====
-- src/net/tcp_stream.hpp and src/net/tcp_listener.hpp: the classes that own the descriptor of a socket. Either is
-- its `fd_`; the reactor is that of the world. The waits are those of src/net/io_awaiters.hpp and
-- src/net/accept_awaiter.hpp.
pub mod Awaited
pub mod Balanced
mod Tests
use rain.Base.{
  ℕ, ℤ, pos, minus_one, is_negative, Bool, true, false, not, List, Option, none, if◌then◌else◌,
}
use rain.Core.{Errno, Syscall, returned, failed, SystemError, from_errno, Errc, Result, ok, err}
use rain.Async.Concepts.{WaitState}
use rain.Async.Reactor.Slots.{Epoll, World}
use rain.Async.Reactor.Register.{remove}
use rain.Async.Loop.{Loop}
use rain.Net.Awaiters.{
  ReadyAwaiter, Accepted, AcceptAwaiter, world_of, with_world, set_state, set_readiness,
  connect_suspend, connect_resume, accept_ready, accept_suspend, accept_resume,
}
use rain.Net.Address.{family, sockaddr_len}
use rain.Net.Sockets.{
  SocketSystem, ListenOptions, ensure_nonblocking, set_nodelay, set_keepalive, peer_address,
  local_address, shutdown_socket, bind_listener_socket, close_socket,
}
use rain.Net.StreamIo.{
  Stream, read_some, read_some_with_timeout, write_some, write_some_with_timeout, stream_write_all,
}
use rain.Net.StreamIo.Sending.{
  send_file_some, send_file_some_with_timeout, send_file_all_with_timeout, write_all_with_timeout,
}

abbrev pub is_einprogress : Errno → Bool
is_einprogress Errno.einprogress = true
is_einprogress e = false

-- What the two factories that wait use: the calls `connect`, `getsockopt` and `accept4`; the coroutine, by its frame,
-- the cells `state_` and `readiness_` of its awaiter, and its event loop; `sockaddr_storage{}` as bytes; and what
-- happens on the loop's thread between its suspension and its going on.
pub record Connecting (K : Type 0) : Type 0 where
  pub connect_call : ℤ → List ℕ → ℕ → K → Syscall × K
  pub getsockopt : ℤ → K → Syscall × K
  pub accept4 : ℤ → K → Accepted × K
  pub frame : ℕ
  pub state : ℕ
  pub readiness : ℕ
  pub loop : Loop K
  pub zeros : List ℕ
  pub meanwhile : Loop K → Loop K

abbrev pub connect_incomplete : SystemError
connect_incomplete = SystemError.made Errc.operation_canceled "connect not completed"

abbrev pub accept_incomplete : SystemError
accept_incomplete = SystemError.made Errc.operation_canceled "accept not completed"

module _ {K : Type 0} (epoll : Epoll K) (c : Connecting K) where
  -- A new awaiter, whose token has no source.
  abbrev pub fresh_wait : ℤ → ReadyAwaiter
  fresh_wait fd = record {
    fd = fd;
    handle = none;
    state = c.state;
    readiness = c.readiness;
    stop_possible = false;
    armed = false;
  }

  abbrev pub fresh_cells : SystemError → World K → Loop K
  fresh_cells e w =
      set_readiness c.readiness (err e) (set_state c.state WaitState.pending (with_world c.loop w))

  abbrev pub goes_on : Bool → Loop K → Loop K
  goes_on stays l = if stays then c.meanwhile l else l

  -- `co_await` of a ConnectAwaiter; of the loop the caller uses the world.
  unfoldable pub await_connect : ℤ → World K → Result (Unit {0}) × World K
  await_connect fd w =
      let l0 = fresh_cells connect_incomplete w in
      let (stays, a, l1) = connect_suspend epoll c.frame (fresh_wait fd) l0 in
      let (r, b, l2) = connect_resume c.getsockopt a (goes_on stays l1) in (r, world_of l2)

  -- That of an AcceptAwaiter, which does not suspend if a connection is there.
  unfoldable pub await_accept : ℤ → World K → Result (ℤ × List ℕ) × World K
  await_accept fd w =
      let fresh : AcceptAwaiter = record { wait = fresh_wait fd; eager = none } in
      let (there, a0, l0) = accept_ready c.accept4 fresh (fresh_cells accept_incomplete w) in
      let (stays, a1, l1) = accept_suspend epoll c.frame a0 l0 in
      let a = if there then a0 else a1 in
      let (r, b, l2) = accept_resume c.zeros c.accept4 a (if there then l0 else goes_on stays l1) in
      (r, world_of l2)

-- A TcpStream or a TcpListener.
pub record TcpSocket : Type 0 where
  pub fd : ℤ

abbrev pub socket_valid : TcpSocket → Bool
socket_valid s = not (is_negative s.fd)

-- The move constructor: the new object and what is left of the other.
unfoldable pub move_socket : TcpSocket → TcpSocket × TcpSocket
move_socket other = (other, record { fd = minus_one })

module _ {K : Type 0} (epoll : Epoll K) (sys : SocketSystem K) where
  abbrev pub on_kernel : World K → K → World K
  on_kernel w k = record w { kernel = k }

  unfoldable pub close_tcp : TcpSocket → World K → Result (Unit {0}) × TcpSocket × World K
  unfolding close_socket
  close_tcp s w =
      let (r, fd, w') = close_socket epoll sys true s.fd w in (r, record { fd = fd }, w')

  -- The destructor.
  unfoldable pub destroy_tcp : TcpSocket → World K → World K
  unfolding close_tcp
  destroy_tcp s w = (close_tcp s w).2

  -- The move assignment from another object: what each holds then.
  unfoldable pub assign_tcp : TcpSocket → TcpSocket → World K → TcpSocket × TcpSocket × World K
  unfolding close_tcp move_socket
  assign_tcp s other w =
      let (r, closed, w') = close_tcp s w in
      let (taken, left) = move_socket other in (taken, left, w')

  -- `from_fd`; the descriptor stays open where it fails.
  unfoldable pub from_fd : ℤ → World K → Result TcpSocket × World K
  from_fd fd w =
      let (r, k) = ensure_nonblocking sys fd w.kernel in
      elim r [ err x ↦ (err x, on_kernel w k) | ok u ↦ (ok (record { fd = fd }), on_kernel w k) ]

  -- What both factories do with `from_fd`: a descriptor that it refuses is closed.
  unfoldable pub from_fd_or_close : ℤ → World K → Result TcpSocket × World K
  from_fd_or_close fd w =
      let (r, w') = from_fd fd w in
      elim r [ err x ↦ (err x, on_kernel w' (sys.close fd w'.kernel).1) | ok s ↦ (ok s, w') ]

  module _ (c : Connecting K) where
    unfoldable pub connect : List ℕ → World K → Result TcpSocket × World K
    connect addr w =
        let (made, k0) = sys.socket (family addr) w.kernel in
        elim made [
          | failed e ↦ (err (from_errno e), on_kernel w k0)
          | returned n ↦
              let fd = pos n in
              let (asked, k1) = c.connect_call fd addr (sockaddr_len addr) k0 in
              let (waited, w2) = await_connect epoll c fd (on_kernel w k1) in
              let w3 = (remove epoll fd w2).1 in
              elim asked [
                | returned m ↦ from_fd_or_close fd (on_kernel w k1)
                | failed e ↦ elim (is_einprogress e) [
                  | false ↦ (err (from_errno e), on_kernel w (sys.close fd k1).1)
                  | true ↦ elim waited [
                    | err x ↦ (err x, on_kernel w3 (sys.close fd w3.kernel).1)
                    | ok u ↦ (ok (record { fd = fd }), w2)
                  ]
                ]
              ]
        ]

    -- `accept` of a listener.
    unfoldable pub accept : TcpSocket → World K → Result (TcpSocket × List ℕ) × World K
    accept s w =
        let (r, w1) = await_accept epoll c s.fd w in
        elim r [
          | err x ↦ (err x, w1)
          | ok (conn, peer) ↦
              let (stream, w2) = from_fd_or_close conn w1 in
              elim stream [ err x ↦ (err x, w2) | ok t ↦ (ok (t, peer), w2) ]
        ]

  unfoldable pub bind_tcp : List ℕ → ListenOptions → World K → Result TcpSocket × World K
  bind_tcp addr opts w =
      let (r, k) = bind_listener_socket sys addr opts w.kernel in
      elim r [ err x ↦ (err x, on_kernel w k) | ok fd ↦ (ok (record { fd = fd }), on_kernel w k) ]

-- The members that hand the descriptor on.
module _ {K : Type 0} (sys : SocketSystem K) where
  unfoldable pub tcp_set_nodelay : TcpSocket → Bool → K → Result (Unit {0}) × K
  tcp_set_nodelay s enable k = set_nodelay sys s.fd enable k

  unfoldable pub tcp_set_keepalive : TcpSocket → Bool → K → Result (Unit {0}) × K
  tcp_set_keepalive s enable k = set_keepalive sys s.fd enable k

  unfoldable pub tcp_peer_address : List ℕ → TcpSocket → K → Result (List ℕ) × K
  tcp_peer_address zeros s k = peer_address sys zeros s.fd k

  unfoldable pub tcp_local_address : List ℕ → TcpSocket → K → Result (List ℕ) × K
  tcp_local_address zeros s k = local_address sys zeros s.fd k

  unfoldable pub tcp_shutdown : TcpSocket → ℕ → K → Result (Unit {0}) × K
  tcp_shutdown s how k = shutdown_socket sys s.fd how k

module _ {W : Type 0} (io : Stream W) where
  unfoldable pub tcp_read : ℕ → TcpSocket → ℕ → W → Option (Result (List ℕ) × W)
  tcp_read fuel s len w = read_some io fuel s.fd len w

  unfoldable pub tcp_read_with_timeout : ℕ → TcpSocket → ℕ → ℕ → W → Option (Result (List ℕ) × W)
  tcp_read_with_timeout fuel s len timeout w = read_some_with_timeout io fuel s.fd len timeout w

  unfoldable pub tcp_write : ℕ → TcpSocket → List ℕ → W → Option (Result ℕ × W)
  tcp_write fuel s bytes w = write_some io fuel s.fd bytes w

  unfoldable pub tcp_write_with_timeout : ℕ → TcpSocket → List ℕ → ℕ → W → Option (Result ℕ × W)
  tcp_write_with_timeout fuel s bytes timeout w =
      write_some_with_timeout io fuel s.fd bytes timeout w

  unfoldable pub tcp_write_all : ℕ → ℕ → TcpSocket → List ℕ → W → Option (Result ℕ × W)
  tcp_write_all fuel calls s bytes w = stream_write_all io fuel calls s.fd bytes w

  unfoldable pub tcp_write_all_with_timeout :
      ℕ → ℕ → TcpSocket → List ℕ → ℕ → W → Option (Result ℕ × W)
  tcp_write_all_with_timeout fuel calls s bytes timeout w =
      write_all_with_timeout io fuel calls s.fd bytes timeout w

  unfoldable pub tcp_send_file : ℕ → TcpSocket → ℤ → ℕ → ℕ → W → Option (Result (ℕ × ℕ) × W)
  tcp_send_file fuel s in_fd offset count w = send_file_some io fuel s.fd in_fd offset count w

  unfoldable pub tcp_send_file_with_timeout :
      ℕ → TcpSocket → ℤ → ℕ → ℕ → ℕ → W → Option (Result (ℕ × ℕ) × W)
  tcp_send_file_with_timeout fuel s in_fd offset count timeout w =
      send_file_some_with_timeout io fuel s.fd in_fd offset count timeout w

  unfoldable pub tcp_send_file_all_with_timeout :
      ℕ → ℕ → TcpSocket → ℤ → ℕ → ℕ → ℕ → W → Option (Result ℕ × W)
  tcp_send_file_all_with_timeout fuel calls s in_fd offset count timeout w =
      send_file_all_with_timeout io fuel calls s.fd in_fd offset count timeout w
