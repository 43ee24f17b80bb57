-- ===== src/Net/Tcp/Tests.antt =====
-- Tests of the socket objects, and the property at a concrete input.
use rain.Base.{arith, ℕ, ◌+◌, ◌-◌, ◌≡◌, refl, pos, minus_one, List, [], ◌∷◌}
use rain.Core.{returned, failed, Errno, ok, one_at, closes}
use rain.Async.Concepts.{WaitState}
use rain.Async.Loop.Samples.{counting_epoll, quiet_world, empty_loop}
use rain.Net.Awaiters.{accepted, set_state, set_readiness, connect_suspend, connect_resume}
use rain.Net.Tcp.Awaited.{WaitCounts}
use rain.Async.Reactor.Register.{register_write, remove, deregister}
use rain.Net.Sockets.{SocketSystem, Flags, named, default_listen, close_socket}
use rain.Net.Sockets.Balanced.{SocketCounts}
use rain.Net.Tcp.{
  TcpSocket, Connecting, await_connect, connect, accept, bind_tcp, assign_tcp, close_tcp,
}
use rain.Net.Tcp.Balanced.{TcpCounts, Owned, stream_of, factories-balanced}

-- A system whose state says whether descriptor 7 is open, on which connections are made later, or refused; and
-- accepted sockets cannot be made non-blocking.
abbrev net : SocketSystem ℕ
net = record {
  socket = λ f k. (returned 7, k + 1);
  setsockopt = λ fd o v k. (returned 0, k);
  bind = λ fd a n k. (returned 0, k);
  listen = λ fd n k. (returned 0, k);
  get_flags = λ fd k. (Flags.no_flags Errno.ebadf, k);
  set_nonblock = λ fd k. (returned 0, k);
  getpeername = λ fd k. (named [] 0, k);
  getsockname = λ fd k. (named [] 0, k);
  shutdown = λ fd how k. (returned 0, k);
  close = λ fd k. (returned 0, k - closes 7 fd);
}

-- Connecting goes on later and is refused with the code 111; a connection is there at once.
abbrev refusing : Connecting ℕ
refusing = record {
  connect_call = λ fd a n k. (failed Errno.einprogress, k);
  getsockopt = λ fd k. (returned 111, k);
  accept4 = λ fd k. (accepted (pos 9) [] 0, k);
  frame = 5;
  state = 1;
  readiness = 2;
  loop = empty_loop;
  zeros = [];
  meanwhile = λ l. set_readiness 2 (ok 1) (set_state 1 WaitState.ready l);
}

net-SocketCounts : SocketCounts net 7 (λ k. k)
unfolding one_at
net-SocketCounts = record {
  socket_counts = λ f k. refl;
  setsockopt_counts = λ fd o v k. refl;
  bind_counts = λ fd a n k. refl;
  listen_counts = λ fd n k. refl;
  close_counts = λ fd k. refl;
}

refusing-WaitCounts : WaitCounts counting_epoll refusing 7 (λ k. k)
unfolding one_at
refusing-WaitCounts = record {
  epoll_ctl_counts = λ e op fd ev k. refl;
  getsockopt_counts = λ fd k. refl;
  accept4_counts = λ fd k. ground arith;
  accepted_is_open = λ fd k conn peer len h. (9, ground (arith, h));
  meanwhile_counts = λ l. refl;
}

net-TcpCounts : TcpCounts counting_epoll net refusing 7 (λ k. k)
unfolding one_at
net-TcpCounts = record {
  sockets = net-SocketCounts;
  waits = refusing-WaitCounts;
  flags_counts = λ fd k. refl;
  nonblock_counts = λ fd k. refl;
  connect_counts = λ fd a n k. refl;
}

abbrev any_8080 : List ℕ
any_8080 = 2 ∷ 0 ∷ 31 ∷ 144 ∷ 0 ∷ 0 ∷ 0 ∷ 0 ∷ []

abbrev listener : TcpSocket
listener = record { fd = pos 6 }

factories-balanced_example :
    (let (r, w') = connect counting_epoll net refusing any_8080 quiet_world in
      Owned counting_epoll net refusing 7 (λ k. k) net-TcpCounts 0 r w')
    × (let (r, w') = accept counting_epoll net refusing listener quiet_world in
        Owned counting_epoll net refusing 7
          (λ k. k)
          net-TcpCounts
          0
          (stream_of counting_epoll net refusing 7 (λ k. k) net-TcpCounts r)
          w')
    × (let (r, w') = bind_tcp counting_epoll net any_8080 default_listen quiet_world in
        Owned counting_epoll net refusing 7 (λ k. k) net-TcpCounts 0 r w')
factories-balanced_example =
    factories-balanced counting_epoll net refusing 7 (λ k. k) net-TcpCounts any_8080 default_listen
      listener quiet_world

-- The connection is refused after a wait: the socket was closed.
no_connection : (connect counting_epoll net refusing any_8080 quiet_world).1.kernel ≡ 0
unfolding connect await_connect connect_suspend connect_resume register_write remove deregister
    one_at
no_connection = refl

-- A listener that takes over another's descriptor closes its own, and the other has none any more.
taken_over :
    (assign_tcp counting_epoll net listener (record { fd = pos 8 }) quiet_world).1
    ≡ record { fd = minus_one }
unfolding assign_tcp close_tcp close_socket
taken_over = refl
