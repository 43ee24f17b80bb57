-- ===== src/Net/Sockets/Balanced.antt =====
-- The descriptor of a listener: src/net/listener_socket_ops.hpp closes it wherever it fails.
use rain.Base.{
  ℕ, ◌+◌, ◌-◌, ◌≡◌, refl, ◌⊎◌, inl, inr, ℤ, pos, Bool, true, false, List, none, some, arith,
}
use rain.Core.{Syscall, SystemError, ok, err, Syscall-outcome, one_at, opens}
use rain.Net.Address.{family, sockaddr_len}
use rain.Net.Sockets.{SocketSystem, SocketOption, ListenOptions, or_close, bind_listener_socket}

-- The place of descriptor `d` in the process's table of open descriptors, as the system documents its calls: what
-- answers `d` opens it, closing `d` takes it away, if it is there, and no other call changes it.
pub record SocketCounts {K : Type 0} (sys : SocketSystem K) (d : ℕ) (opened : K → ℕ) : Type 0 where
  pub socket_counts :
      (f : ℕ) (k : K) → opened (sys.socket f k).1 ≡ opened k + opens d (sys.socket f k).0
  pub setsockopt_counts :
      (fd : ℤ) (o : SocketOption) (v : Bool) (k : K) → opened (sys.setsockopt fd o v k).1 ≡ opened k
  pub bind_counts : (fd : ℤ) (a : List ℕ) (n : ℕ) (k : K) → opened (sys.bind fd a n k).1 ≡ opened k
  pub listen_counts : (fd : ℤ) (n : ℕ) (k : K) → opened (sys.listen fd n k).1 ≡ opened k
  pub close_counts : (fd : ℕ) (k : K) → opened (sys.close (pos fd) k).1 ≡ opened k - one_at d fd

module _ {K : Type 0} (sys : SocketSystem K) (d : ℕ) (opened : K → ℕ)
    (counts : SocketCounts sys d opened) where
  -- A wanted call closes the socket exactly where it fails.
  or_close-lem :
      (wanted : Bool) (call : K → Syscall × K) (n : ℕ) (k : K)
      → ((k : K) → opened (call k).1 ≡ opened k)
      → let (e, k') = or_close sys wanted call (pos n) k in
        ((e ≡ none) × (opened k' ≡ opened k))
        ⊎ ((x : SystemError) × (e ≡ some x) × (opened k' ≡ opened k - one_at d n))
  unfolding or_close
  or_close-lem false call n k same = inl (refl, refl)
  or_close-lem true call n k same = elim (Syscall-outcome (call k).0) [
    | inl (m, e) ↦ rw e (inl (refl, same k))
    | inr (x, e) ↦
        let closed = counts.close_counts n (call k).1 in
        rw e (inr (_, refl, omega (arith, closed, same k)))
  ]

  -- A listener that cannot be made leaves the open descriptors as they were, and one that is made is open besides.
  pub bind_listener_socket-balanced :
      (addr : List ℕ) (opts : ListenOptions) (k : K)
      → let (r, k') = bind_listener_socket sys addr opts k in
        ((n : ℕ) × (r ≡ ok (pos n)) × (opened k' ≡ opened k + one_at d n))
        ⊎ ((x : SystemError) × (r ≡ err x) × (opened k' ≡ opened k))
  unfolding bind_listener_socket
  bind_listener_socket-balanced addr opts k =
      let made = counts.socket_counts (family addr) k in
      let k0 = (sys.socket (family addr) k).1 in
      elim (Syscall-outcome (sys.socket (family addr) k).0) [
        | inr (x, e) ↦
            let made' : opened k0 ≡ opened k + 0 = rw e at made in
            rw (bind_listener_socket, e) (inr (_, refl, omega (arith, made')))
        | inl (n, e) ↦
            let made' : opened k0 ≡ opened k + one_at d n = rw e at made in
            let addr_call = sys.setsockopt (pos n) SocketOption.reuse_address true in
            let port_call = sys.setsockopt (pos n) SocketOption.reuse_port true in
            let bind_call = sys.bind (pos n) addr (sockaddr_len addr) in
            let listen_call = sys.listen (pos n) opts.backlog in
            let k1 = (or_close sys opts.reuse_addr addr_call (pos n) k0).1 in
            let k2 = (or_close sys opts.reuse_port port_call (pos n) k1).1 in
            let k3 = (or_close sys true bind_call (pos n) k2).1 in
            elim (or_close-lem opts.reuse_addr addr_call n k0
              (counts.setsockopt_counts (pos n) _ true)) [
                | inr (x, e1, c1) ↦
                    rw (bind_listener_socket, e, e1) (inr (x, refl, omega (arith, c1, made')))
                | inl (e1, c1) ↦
                    elim (or_close-lem opts.reuse_port port_call n k1
                      (counts.setsockopt_counts (pos n) _ true)) [
                        | inr (x, e2, c2) ↦
                            rw (bind_listener_socket, e, e1, e2)
                              (inr (x, refl, omega (arith, c2, c1, made')))
                        | inl (e2, c2) ↦
                            elim (or_close-lem true bind_call n k2
                              (counts.bind_counts (pos n) _ _)) [
                                | inr (x, e3, c3) ↦
                                    rw (bind_listener_socket, e, e1, e2, e3)
                                      (inr (x, refl, omega (arith, c3, c2, c1, made')))
                                | inl (e3, c3) ↦
                                    elim (or_close-lem true listen_call n k3
                                      (counts.listen_counts (pos n) _)) [
                                        | inr (x, e4, c4) ↦
                                            rw (bind_listener_socket, e, e1, e2, e3, e4)
                                              (inr (x, refl, omega (arith, c4, c3, c2, c1, made')))
                                        | inl (e4, c4) ↦
                                            rw (bind_listener_socket, e, e1, e2, e3, e4)
                                              (inl (n, refl, omega (arith, c4, c3, c2, c1, made')))
                                      ]
                              ]
                      ]
              ]
      ]
