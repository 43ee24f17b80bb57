-- ===== src/Net/Sockets/Tests.antt =====
-- Tests of the sockets, and the property at a concrete input.
use rain.Base.{ℕ, ◌+◌, ◌-◌, ◌≡◌, refl, pos, false, List, [], ◌∷◌}
use rain.Core.{returned, failed, Errno, ok, err, from_errno, one_at, closes}
use rain.Net.Address.{port, family, sockaddr_len}
use rain.Net.Sockets.{
  SocketSystem, flags, named, default_listen, bind_listener_socket, or_close, ensure_nonblocking,
  peer_address,
}
use rain.Net.Awaiters.{from_raw}
use rain.Net.Sockets.Balanced.{SocketCounts}

-- A system whose state says whether descriptor 7 is open, and on which nobody may bind.
abbrev unbindable : SocketSystem ℕ
unbindable = record {
  socket = λ f k. (returned 7, k + 1);
  setsockopt = λ fd o v k. (returned 0, k);
  bind = λ fd a n k. (failed (Errno.other 98), k);
  listen = λ fd n k. (returned 0, k);
  get_flags = λ fd k. (flags false, k);
  set_nonblock = λ fd k. (returned 0, k);
  getpeername = λ fd k. (named (2 ∷ 0 ∷ 5 ∷ []) 3, k);
  getsockname = λ fd k. (named [] 0, k);
  shutdown = λ fd how k. (returned 0, k);
  close = λ fd k. (returned 0, k - closes 7 fd);
}

unbindable-SocketCounts : SocketCounts unbindable 7 (λ k. k)
unfolding one_at
unbindable-SocketCounts = record {
  socket_counts = λ f k. refl;
  setsockopt_counts = λ fd o v k. refl;
  bind_counts = λ fd a n k. refl;
  listen_counts = λ fd n k. refl;
  close_counts = λ fd k. refl;
}

abbrev any_8080 : List ℕ
any_8080 = 2 ∷ 0 ∷ 31 ∷ 144 ∷ 0 ∷ 0 ∷ 0 ∷ 0 ∷ []

-- The address is in use: the socket was closed.
address_in_use :
    bind_listener_socket unbindable any_8080 default_listen 5
    ≡ (err (from_errno (Errno.other 98)), 5)
unfolding bind_listener_socket or_close one_at
address_in_use = refl

made_nonblocking : (ensure_nonblocking unbindable (pos 7) 5).0 ≡ ok tt
unfolding ensure_nonblocking
made_nonblocking = refl

the_peer : (peer_address unbindable (0 ∷ 0 ∷ 0 ∷ 0 ∷ []) (pos 7) 5).0 ≡ ok (2 ∷ 0 ∷ 5 ∷ 0 ∷ [])
unfolding peer_address from_raw
the_peer = refl

-- The loopback of IPv4 at port 8080, and an address of IPv6.
eight_thousand_eighty : port (2 ∷ 0 ∷ 31 ∷ 144 ∷ 127 ∷ 0 ∷ 0 ∷ 1 ∷ []) ≡ 8080
unfolding port family
eight_thousand_eighty = refl

longer : sockaddr_len (10 ∷ 0 ∷ 31 ∷ 144 ∷ []) ≡ 28
unfolding sockaddr_len family
longer = refl
