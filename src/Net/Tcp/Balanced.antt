-- ===== src/Net/Tcp/Balanced.antt =====
-- The descriptors of src/net/tcp_stream.hpp and src/net/tcp_listener.hpp: who owns them, and who closes them.
use rain.Base.{
  ℕ, ◌+◌, ◌-◌, ◌≡◌, refl, ◌⊎◌, inl, inr, ℤ, pos, List, none, arith, Bool-cases, minus_one,
}
use rain.Core.{SystemError, Result, ok, err, Syscall-outcome, Result-cases, one_at, closes}
use rain.Async.Reactor.Slots.{Epoll, World, CtlOp}
use rain.Async.Reactor.Register.{remove, deregister}
use rain.Net.Address.{family, sockaddr_len}
use rain.Net.Sockets.{
  SocketSystem, ensure_nonblocking, close_socket, ListenOptions, bind_listener_socket,
}
use rain.Net.Sockets.Balanced.{SocketCounts, bind_listener_socket-balanced}
use rain.Net.Tcp.Awaited.{WaitCounts, await_connect-counts, await_accept-Took}
use rain.Net.Tcp.{
  await_connect, await_accept, TcpSocket, Connecting, is_einprogress, close_tcp, destroy_tcp,
  move_socket, from_fd, from_fd_or_close, connect, accept, bind_tcp, on_kernel,
}

-- The place of descriptor `d` in the process's table of open descriptors over all the calls of the factories, as
-- the system documents them.
pub record TcpCounts {K : Type 0} (epoll : Epoll K) (sys : SocketSystem K) (c : Connecting K)
    (d : ℕ) (opened : K → ℕ) : Type 0 where
  pub sockets : SocketCounts sys d opened
  pub waits : WaitCounts epoll c d opened
  pub flags_counts : (fd : ℤ) (k : K) → opened (sys.get_flags fd k).1 ≡ opened k
  pub nonblock_counts : (fd : ℤ) (k : K) → opened (sys.set_nonblock fd k).1 ≡ opened k
  pub connect_counts :
      (fd : ℤ) (a : List ℕ) (n : ℕ) (k : K) → opened (c.connect_call fd a n k).1 ≡ opened k

module _ {K : Type 0} (epoll : Epoll K) (sys : SocketSystem K) (c : Connecting K) (d : ℕ)
    (opened : K → ℕ) (counts : TcpCounts epoll sys c d opened) where
  remove-counts : (n : ℕ) (w : World K) → opened (remove epoll (pos n) w).1.kernel ≡ opened w.kernel
  unfolding remove deregister
  remove-counts n w =
      ground (
        arith,
        counts.waits.epoll_ctl_counts w.reactor.epoll_fd CtlOp.ctl_del (pos n) none w.kernel,
      )

  -- The destructor of an open socket closes the one descriptor, and leaves none to close.
  close_tcp-counts :
      (s : TcpSocket) (n : ℕ) (w : World K)
      → s.fd ≡ pos n
      → ((close_tcp epoll sys s w).1.fd ≡ minus_one)
        × (opened (close_tcp epoll sys s w).2.kernel ≡ opened w.kernel - one_at d n)
  unfolding close_tcp close_socket
  close_tcp-counts s n w e =
      let w1 = (remove epoll (pos n) w).1 in
      let same = remove-counts n w in
      let closed = counts.sockets.close_counts n w1.kernel in
      rw (close_tcp, close_socket, e) (refl, omega (arith, same, closed))

  ensure_nonblocking-counts : (fd : ℤ) (k : K) → opened (ensure_nonblocking sys fd k).1 ≡ opened k
  unfolding ensure_nonblocking
  ensure_nonblocking-counts fd k =
      ground (arith, counts.flags_counts fd k, counts.nonblock_counts fd (sys.get_flags fd k).1)

  from_fd-counts :
      (fd : ℤ) (w : World K)
      → let (r, w') = from_fd epoll sys fd w in
        (((x : SystemError) × (r ≡ err x)) ⊎ (r ≡ ok (record { fd = fd })))
        × (opened w'.kernel ≡ opened w.kernel)
  unfolding from_fd
  from_fd-counts fd w =
      let same = ensure_nonblocking-counts fd w.kernel in
      elim (Result-cases (ensure_nonblocking sys fd w.kernel).0) [
        | inl (u, e) ↦ rw (from_fd, e) (inr refl, same)
        | inr (x, e) ↦ rw (from_fd, e) (inl (x, refl), same)
      ]

  -- A descriptor that the factories get becomes a stream, or is closed.
  from_fd_or_close-counts :
      (n : ℕ) (w : World K)
      → let (r, w') = from_fd_or_close epoll sys (pos n) w in
        ((x : SystemError) × (r ≡ err x) × (opened w'.kernel ≡ opened w.kernel - one_at d n))
        ⊎ ((s : TcpSocket) × (r ≡ ok s) × (s.fd ≡ pos n) × (opened w'.kernel ≡ opened w.kernel))
  unfolding from_fd_or_close
  from_fd_or_close-counts n w =
      let (made, same) = from_fd-counts (pos n) w in
      let closed = counts.sockets.close_counts n (from_fd epoll sys (pos n) w).1.kernel in
      elim made [
        | inr e ↦ rw (from_fd_or_close, e) (inr (_, refl, refl, same))
        | inl (x, e) ↦ rw (from_fd_or_close, e) (inl (x, refl, omega (arith, same, closed)))
      ]

  -- What a factory leaves: an error and the table of open descriptors as before, or an object whose descriptor is
  -- open besides, and is closed by its destructor.
  abbrev pub Owned : K → Result TcpSocket → World K → Type 0
  Owned k (err x) w = opened w.kernel ≡ opened k
  Owned k (ok s) w =
      (opened w.kernel ≡ opened k + closes d s.fd)
      × (opened (destroy_tcp epoll sys s w).kernel ≡ opened k)

  own :
      (k : K) (s : TcpSocket) (n : ℕ) (w : World K)
      → s.fd ≡ pos n
      → opened w.kernel ≡ opened k + one_at d n
      → Owned k (ok s) w
  unfolding destroy_tcp
  own k s n w at more = (rw at more, omega (arith, more, (close_tcp-counts s n w at).1))

  own_or_close :
      (k : K) (fd : ℤ) (n : ℕ) (w : World K)
      → fd ≡ pos n
      → opened w.kernel ≡ opened k + one_at d n
      → let (r, w') = from_fd_or_close epoll sys fd w in Owned k r w'
  own_or_close k fd n w is more =
      let (r, w') = from_fd_or_close epoll sys (pos n) w in
      rw is (elim (from_fd_or_close-counts n w) [
        | inl (x, e, gone) ↦ rw e (omega (arith, gone, more))
        | inr (s, e, at, same) ↦ rw e (own k s n w' at (omega (arith, same, more)))
      ])

  -- `connect`, on every path, closes the socket that it made unless it answers a stream that owns it.
  connect-balanced :
      (addr : List ℕ) (w : World K)
      → let (r, w') = connect epoll sys c addr w in Owned w.kernel r w'
  unfolding connect
  connect-balanced addr w =
      let made = counts.sockets.socket_counts (family addr) w.kernel in
      let k0 = (sys.socket (family addr) w.kernel).1 in
      elim (Syscall-outcome (sys.socket (family addr) w.kernel).0) [
        | inr (x, e) ↦
            let made' : opened k0 ≡ opened w.kernel + 0 = rw e at made in
            rw (connect, e) (omega (arith, made'))
        | inl (n, e) ↦
            let made' : opened k0 ≡ opened w.kernel + one_at d n = rw e at made in
            let k1 = (c.connect_call (pos n) addr (sockaddr_len addr) k0).1 in
            let asked = counts.connect_counts (pos n) addr (sockaddr_len addr) k0 in
            elim (Syscall-outcome (c.connect_call (pos n) addr (sockaddr_len addr) k0).0) [
              | inl (m, e1) ↦
                  rw (connect, e, e1)
                    (own_or_close w.kernel (pos n) n (on_kernel epoll sys w k1) refl
                      (omega (arith, made', asked)))
              | inr (x, e1) ↦ elim (Bool-cases (is_einprogress x)) [
                | inr later ↦
                    let gone = counts.sockets.close_counts n k1 in
                    rw (connect, e, e1, later) (omega (arith, gone, made', asked))
                | inl progress ↦
                    let w2 = (await_connect epoll c (pos n) (on_kernel epoll sys w k1)).1 in
                    let waited =
                      await_connect-counts epoll c d opened counts.waits (pos n)
                        (on_kernel epoll sys w k1) in
                    elim (Result-cases
                      (await_connect epoll c (pos n) (on_kernel epoll sys w k1)).0) [
                        | inl (u, e2) ↦
                            rw (connect, e, e1, progress, e2)
                              (own w.kernel (record { fd = pos n }) n w2 refl
                                (omega (arith, waited, made', asked)))
                        | inr (y, e2) ↦
                            let removed = remove-counts n w2 in
                            let gone =
                              counts.sockets.close_counts n (remove epoll (pos n) w2).1.kernel in
                            rw (connect, e, e1, progress, e2)
                              (omega (arith, gone, removed, waited, made', asked))
                      ]
              ]
            ]
      ]

  abbrev pub stream_of : Result (TcpSocket × List ℕ) → Result TcpSocket
  stream_of (err x) = err x
  stream_of (ok (s, peer)) = ok s

  -- `accept` closes a connection that it cannot answer, and leaves the listener as it is.
  accept-balanced :
      (s : TcpSocket) (w : World K)
      → let (r, w') = accept epoll sys c s w in Owned w.kernel (stream_of r) w'
  unfolding accept
  accept-balanced s w =
      let w1 = (await_accept epoll c s.fd w).1 in
      elim (await_accept-Took epoll c d opened counts.waits s.fd w) [
        | inl (x, e, same) ↦ rw (accept, e) same
        | inr (n, peer, e, more) ↦
            let owned = own_or_close w.kernel (pos n) n w1 refl more in
            elim (Result-cases (from_fd_or_close epoll sys (pos n) w1).0) [
              | inl (t, e1) ↦ rw (accept, e, e1) (rw e1 at owned)
              | inr (x, e1) ↦ rw (accept, e, e1) (rw e1 at owned)
            ]
      ]

  bind_tcp-balanced :
      (addr : List ℕ) (opts : ListenOptions) (w : World K)
      → let (r, w') = bind_tcp epoll sys addr opts w in Owned w.kernel r w'
  unfolding bind_tcp
  bind_tcp-balanced addr opts w =
      elim (bind_listener_socket-balanced sys d opened counts.sockets addr opts w.kernel) [
        | inl (n, e, more) ↦
            let k = (bind_listener_socket sys addr opts w.kernel).1 in
            rw (bind_tcp, e)
              (own w.kernel (record { fd = pos n }) n (on_kernel epoll sys w k) refl more)
        | inr (x, e, same) ↦ rw (bind_tcp, e) same
      ]

  -- The three ways to a socket object, `connect`, `accept` and `bind`, on every path of these and of the awaiters that
  -- they wait with, at any descriptor `d`, which nothing else opens or closes while they wait: an error, and the
  -- table of open descriptors is at `d` as before; or an object, whose descriptor is open besides, and after whose
  -- destructor the table is at `d` as before.
  pub factories-balanced :
      (addr : List ℕ) (opts : ListenOptions) (s : TcpSocket) (w : World K)
      → (let (r, w') = connect epoll sys c addr w in Owned w.kernel r w')
        × (let (r, w') = accept epoll sys c s w in Owned w.kernel (stream_of r) w')
        × (let (r, w') = bind_tcp epoll sys addr opts w in Owned w.kernel r w')
  factories-balanced addr opts s w =
      (connect-balanced addr w, accept-balanced s w, bind_tcp-balanced addr opts w)

  -- After a move only the new object has the descriptor: what is left of the other closes nothing.
  pub destroy-left : (s : TcpSocket) (w : World K) → destroy_tcp epoll sys (move_socket s).1 w ≡ w
  unfolding destroy_tcp move_socket close_tcp close_socket
  destroy-left s w = refl
