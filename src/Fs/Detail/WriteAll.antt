-- ===== src/Fs/Detail/WriteAll.antt =====
-- `write_all_fd` of src/fs/detail.hpp ends, and writes everything or a part of it.
use rain.Base.{
  ℕ, zero, suc, ◌+◌, ◌-◌, ◌<◌, ◌≡◌, refl, inl, inr, List, ◌++◌, some, arith, ltb, length, take,
  drop, length-drop, append-nil, append_assoc, Bool-cases, ℤ, take-take, drop-drop, drop-all,
  take-append-drop, sym, ◌∙◌,
}
use rain.Core.{Errno, Result, ok, err, Syscall-cases, from_errno}
use rain.Fs.System.{System, Writes}
use rain.Fs.Detail.{write_all_loop, write_all_fd, zero_write}

-- How the loop may end: all of `rest` is written, or it fails after a part of it.
abbrev pub Wrote : List ℕ → List ℕ → List ℕ → Result (Unit {0}) → Type 0
Wrote before rest after (ok u) = after ≡ before ++ rest
Wrote before rest after (err e) = (k : ℕ) × (after ≡ before ++ take k rest)

module _ {W : Type 0} (sys : System W) (fd : ℤ) (law : Writes sys fd) where
  Wrote-later :
      (n : ℕ) (r : Result (Unit {0})) (before rest mid after : List ℕ)
      → mid ≡ before ++ take n rest
      → Wrote mid (drop n rest) after r
      → Wrote before rest after r
  Wrote-later n (ok u) before rest mid after m h =
      rw (h, m, append_assoc before (take n rest) (drop n rest), take-append-drop n rest)
  Wrote-later n (err e) before rest mid after m (k, h) = (
    n + k,
    rw (h, m, append_assoc before (take n rest) (take k (drop n rest)), take-take n k rest),
  )

  write_all_loop_lem :
      (fuel total : ℕ) (bytes : List ℕ) (w : W)
      → length bytes - total + law.interrupts w < fuel
      → (r : Result (Unit {0})) × (w' : W) × (write_all_loop sys fuel fd bytes total w
          ≡ some (r, w'))
        × Wrote (law.written w) (drop total bytes) (law.written w') r
  unfolding write_all_loop
  write_all_loop_lem zero total bytes w h = absurd (omega (arith, h))
  write_all_loop_lem (suc fuel) total bytes w h =
      let rest = drop total bytes in
      let w' = (sys.write_call fd rest w).1 in
      elim (Bool-cases (ltb total (length bytes))) [
        | inr done ↦ (
          ok tt,
          w,
          rw done refl,
          rw (drop-all total bytes (ground arith)) (sym (append-nil (law.written w))),
        )
        | inl more ↦ elim (Syscall-cases (sys.write_call fd rest w).0) [
          | inl none_taken ↦ (
            err zero_write,
            w',
            rw (more, none_taken) refl,
            (0, (law.wrote 0 rest w none_taken).1),
          )
          | inr (inl (n, some_taken)) ↦
              let (le, taken, fewer) = law.wrote (suc n) rest w some_taken in
              let (r, v, ends, wrote) =
                write_all_loop_lem fuel (total + suc n) bytes w'
                  (omega (arith, le, fewer, h, length-drop total bytes)) in
              (
                r,
                v,
                rw (more, some_taken) ends,
                Wrote-later (suc n) r (law.written w) rest (law.written w') (law.written v) taken
                    (rw (drop-drop total (suc n) bytes) wrote),
              )
          | inr (inr (inl interrupted)) ↦
              let (r, v, ends, wrote) =
                write_all_loop_lem fuel total bytes w'
                  (omega (arith, h, law.write_interrupted rest w interrupted)) in
              (
                r,
                v,
                rw (more, interrupted) ends,
                rw (sym (law.write_failed Errno.eintr rest w interrupted)) wrote,
              )
          | inr (inr (inr (e, refused, ne))) ↦ (
            err (from_errno e),
            w',
            rw (more, refused, ne) refl,
            (0, law.write_failed e rest w refused ∙ sym (append-nil (law.written w))),
          )
        ]
      ]

  -- Where `write` answers as documented, `write_all_fd` ends once it has been called for each byte and
  -- each signal at most: with `Ok` and all of the bytes written after what was there, or with an error
  -- and a prefix of them.
  pub write_all_fd_lem :
      (bytes : List ℕ) (w : W)
      → (r : Result (Unit {0})) × (w' : W) × (write_all_fd sys
            (length bytes + law.interrupts w + 1)
            fd
            bytes
            w
          ≡ some (r, w'))
        × Wrote (law.written w) bytes (law.written w') r
  unfolding write_all_fd
  write_all_fd_lem bytes w =
      write_all_loop_lem (length bytes + law.interrupts w + 1) 0 bytes w (omega arith)
