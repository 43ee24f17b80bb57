-- ===== src/Fs/Detail/Descriptors.antt =====
-- The descriptors that src/fs/detail.hpp opens are closed on every path.
use rain.Base.{
  ℕ, zero, suc, ◌+◌, ◌≡◌, refl, ◌∙◌, inl, inr, ◌*◌, List, [], ◌∷◌, ◌++◌, none, some, arith, ltb,
  length, drop, Bool, true, if◌then◌else◌, String, Bool-cases, Option-cases, ℤ, pos, ◌⊎◌,
}
use rain.Core.{
  Result, ok, err, SystemError, from_errno, Syscall-outcome, Syscall-cases, Received-cases, one_at,
}
use rain.Fs.System.{System, Counters, OpenFlags}
use rain.Fs.Detail.{
  close_fd, drop_fd, open_fd, write_all_loop, write_all_fd, write_file_sync, read_loop,
  read_file_sync, after_write, after_read, write_flags, read_flags,
}

module _ {W : Type 0} (sys : System W) (d : ℕ) (n : Counters sys d) where
  abbrev pub Same : W → W → Type 0
  Same w w' = (n.opened w' ≡ n.opened w) × (n.closed w' ≡ n.closed w)

  Same-trans : {u v w : W} → Same u v → Same v w → Same u w
  Same-trans (a, b) (c, d) = (c ∙ a, d ∙ b)

  write_all_loop-Same :
      (fuel : ℕ) (fd : ℤ) (bytes : List ℕ) (total : ℕ) (w w' : W) (r : Result (Unit {0}))
      → write_all_loop sys fuel fd bytes total w ≡ some (r, w')
      → Same w w'
  unfolding write_all_loop
  write_all_loop-Same zero fd bytes total w w' r h = absurd (ground (arith, h))
  write_all_loop-Same (suc fuel) fd bytes total w w' r h =
      let s = n.writes fd (drop total bytes) w in
      elim (Bool-cases (ltb total (length bytes))) [
        | inr done ↦ ground (arith, h, done)
        | inl more ↦ elim (Syscall-cases (sys.write_call fd (drop total bytes) w).0) [
          | inl e ↦ ground (arith, h, more, e, s)
          | inr (inl (k, e)) ↦
              let h' : write_all_loop sys fuel fd bytes (total + suc k)
                    (sys.write_call fd (drop total bytes) w).1
                  ≡ some (r, w') =
                ground (arith, h, more, e) in
              Same-trans s (write_all_loop-Same fuel fd bytes (total + suc k) _ w' r h')
          | inr (inr (inl e)) ↦
              let h' : write_all_loop sys fuel fd bytes total
                    (sys.write_call fd (drop total bytes) w).1
                  ≡ some (r, w') =
                ground (arith, h, more, e) in
              Same-trans s (write_all_loop-Same fuel fd bytes total _ w' r h')
          | inr (inr (inr (e', e, ne))) ↦ ground (arith, h, more, e, ne, s)
        ]
      ]

  read_loop-Same :
      (fuel : ℕ) (fd : ℤ) (bytes : List ℕ) (w w' : W) (r : Result (List ℕ))
      → read_loop sys fuel fd bytes w ≡ some (r, w')
      → Same w w'
  unfolding read_loop
  read_loop-Same zero fd bytes w w' r h = absurd (ground (arith, h))
  read_loop-Same (suc fuel) fd bytes w w' r h =
      let s = n.reads fd 8192 w in
      elim (Received-cases (sys.read_call fd 8192 w).0) [
        | inl e ↦ ground (arith, h, e, s)
        | inr (inl (b, more, e)) ↦
            let h' : read_loop sys fuel fd (bytes ++ (b ∷ more)) (sys.read_call fd 8192 w).1
                ≡ some (r, w') =
              ground (arith, h, e) in
            Same-trans s (read_loop-Same fuel fd (bytes ++ (b ∷ more)) _ w' r h')
        | inr (inr (inl e)) ↦
            let h' : read_loop sys fuel fd bytes (sys.read_call fd 8192 w).1 ≡ some (r, w') =
              ground (arith, h, e) in
            Same-trans s (read_loop-Same fuel fd bytes _ w' r h')
        | inr (inr (inr (e', e, ne))) ↦ ground (arith, h, e, ne, s)
      ]

  -- A descriptor is closed once by the destructor, whether or not it was closed before.
  abbrev pub Closed : ℕ → W → W → Type 0
  Closed fd w w' = (n.opened w' ≡ n.opened w) × (n.closed w' ≡ n.closed w + one_at d fd)

  drop_fd-Closed : (fd : ℕ) (w : W) → Closed fd w (drop_fd sys (pos fd) w)
  unfolding drop_fd close_fd
  drop_fd-Closed fd w = ground (arith, n.closes (pos fd) w)

  after_write-Closed :
      (fd : ℕ) (r : Result (Unit {0})) (w : W) → Closed fd w (after_write sys (pos fd) (r, w)).1
  unfolding drop_fd close_fd
  after_write-Closed fd (err e) w = drop_fd-Closed fd w
  after_write-Closed fd (ok u) w = ground (arith, n.closes (pos fd) w)

  after_read-Closed :
      (fd : ℕ) (r : Result (List ℕ)) (w : W) → Closed fd w (after_read sys (pos fd) (r, w)).1
  unfolding drop_fd close_fd
  after_read-Closed fd (err e) w = drop_fd-Closed fd w
  after_read-Closed fd (ok u) w = ground (arith, n.closes (pos fd) w)

  open_fd-opened :
      (path : String) (flags : OpenFlags) (mode : ℕ) (w : W)
      → ((fd : ℕ) × ((open_fd sys path flags mode w).0 ≡ ok (pos fd))
          × (n.opened (open_fd sys path flags mode w).1 ≡ n.opened w + one_at d fd)
          × (n.closed (open_fd sys path flags mode w).1 ≡ n.closed w))
        ⊎ ((e : SystemError) × ((open_fd sys path flags mode w).0 ≡ err e)
            × Same w (open_fd sys path flags mode w).1)
  unfolding open_fd
  open_fd-opened path flags mode w =
      let fl : OpenFlags = record flags { cloexec = true } in
      let m = if flags.create then some mode else none in
      elim (Syscall-outcome (sys.open_call path fl m w).0) [
        | inl (fd, e) ↦ inl (fd, rw e refl, n.opens path fl m fd w e, n.open_closes path fl m w)
        | inr (x, e) ↦
            inr (from_errno x, rw e refl, (n.opens_not path fl m x w e, n.open_closes path fl m w))
      ]

  write_file_sync-balanced :
      (fuel : ℕ) (path : String) (bytes : List ℕ) (append : Bool) (w w' : W) (r : Result (Unit {0}))
      → write_file_sync sys fuel path bytes append w ≡ some (r, w')
      → n.opened w' + n.closed w ≡ n.opened w + n.closed w'
  unfolding write_file_sync write_all_fd
  write_file_sync-balanced fuel path bytes append w w' r h =
      elim (open_fd-opened path (write_flags append) (6 * 64 + 4 * 8 + 4) w) [
        | inr (e, bad, same) ↦ ground (arith, h, bad, same)
        | inl (fd, good, o, c) ↦
            let v = (open_fd sys path (write_flags append) (6 * 64 + 4 * 8 + 4) w).1 in
            elim (Option-cases (write_all_loop sys fuel (pos fd) bytes 0 v)) [
              | inl e ↦ absurd (ground (arith, h, good, e))
              | inr ((q, u), e) ↦
                  let s = write_all_loop-Same fuel (pos fd) bytes 0 v u q e in
                  let k = after_write-Closed fd q u in
                  let last : w' ≡ (after_write sys (pos fd) (q, u)).1 =
                    ground (arith, h, good, e) in
                  rw last (omega (arith, o, c, s.0, s.1, k.0, k.1))
            ]
      ]

  read_file_sync-balanced :
      (fuel : ℕ) (path : String) (w w' : W) (r : Result (List ℕ))
      → read_file_sync sys fuel path w ≡ some (r, w')
      → n.opened w' + n.closed w ≡ n.opened w + n.closed w'
  unfolding read_file_sync
  read_file_sync-balanced fuel path w w' r h = elim (open_fd-opened path read_flags 0 w) [
    | inr (e, bad, same) ↦ ground (arith, h, bad, same)
    | inl (fd, good, o, c) ↦
        let v = (open_fd sys path read_flags 0 w).1 in
        elim (Option-cases (read_loop sys fuel (pos fd) [] v)) [
          | inl e ↦ absurd (ground (arith, h, good, e))
          | inr ((q, u), e) ↦
              let s = read_loop-Same fuel (pos fd) [] v u q e in
              let k = after_read-Closed fd q u in
              let last : w' ≡ (after_read sys (pos fd) (q, u)).1 = ground (arith, h, good, e) in
              rw last (omega (arith, o, c, s.0, s.1, k.0, k.1))
        ]
  ]

  -- Whether `write_file_sync` and `read_file_sync` succeed or fail, each has called `close` of any descriptor `d` as
  -- often as `open` answered `d` to it: it closes what it opened, once, and nothing else. Here the one goes from
  -- `w` to `w'`, then the other from `w'` to `v`.
  pub whole_file-balanced :
      (fuel : ℕ) (path : String) (bytes : List ℕ) (append : Bool) (w w' v : W)
      (r : Result (Unit {0})) (q : Result (List ℕ))
      → write_file_sync sys fuel path bytes append w ≡ some (r, w')
      → read_file_sync sys fuel path w' ≡ some (q, v)
      → (n.opened w' + n.closed w ≡ n.opened w + n.closed w')
        × (n.opened v + n.closed w' ≡ n.opened w' + n.closed v)
  whole_file-balanced fuel path bytes append w w' v r q written read = (
    write_file_sync-balanced fuel path bytes append w w' r written,
    read_file_sync-balanced fuel path w' v q read,
  )
