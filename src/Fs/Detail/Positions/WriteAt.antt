-- ===== src/Fs/Detail/Positions/WriteAt.antt =====
-- `write_at_fd_sync` of src/fs/detail.hpp ends and writes all or a prefix at the offset.
use rain.Base.{
  ℕ, zero, suc, ◌+◌, ◌-◌, ◌≤◌, ◌<◌, ◌≡◌, refl, ◌∙◌, inl, inr, List, some, arith, ltb, length, drop,
  length-drop, Bool-cases, ltb→lt, ℤ, byte_at-drop,
}
use rain.Core.{Errno, Result, ok, err, from_errno, Syscall-cases, Result-cases}
use rain.Fs.System.{System, Pwrites, patched}
use rain.Fs.Detail.{write_at_loop, write_at_fd_sync, checked_offset_add, zero_pwrite}
use rain.Fs.Detail.Positions.ReadAt.{checked_offset_add-value}

-- How it may end: `k` bytes are in the file and nothing else has changed; all of them if it is `Ok`.
abbrev pub Counts : List ℕ → Result ℕ → ℕ → Type 0
Counts bytes (ok n) k = (n ≡ length bytes) × (k ≡ length bytes)
Counts bytes (err e) k = k ≤ length bytes

-- Bytes put after the first `n` of a list continue it.
patched-patched :
    (old : ℕ → ℕ) (offset n k i : ℕ) (bytes : List ℕ)
    → patched (patched old offset bytes n) (offset + n) (drop n bytes) k i
      ≡ patched old offset bytes (n + k) i
patched-patched old offset n k i bytes =
    let e = byte_at-drop n (i - (offset + n)) bytes in ground (arith, e)

module _ {W : Type 0} (sys : System W) (fd : ℤ) (law : Pwrites sys fd) where
  write_at_loop_lem :
      (fuel offset total : ℕ) (bytes : List ℕ) (old : ℕ → ℕ) (w : W)
      → length bytes - total + law.interrupts w < fuel
      → total ≤ length bytes
      → ((i : ℕ) → law.content w i ≡ patched old offset bytes total i)
      → (r : Result ℕ) × (w' : W) × (k : ℕ) × (write_at_loop sys fuel fd offset bytes total w
          ≡ some (r, w'))
        × Counts bytes r k
        × ((i : ℕ) → law.content w' i ≡ patched old offset bytes k i)
  unfolding write_at_loop
  write_at_loop_lem zero offset total bytes old w h le p = absurd (omega (arith, h))
  write_at_loop_lem (suc fuel) offset total bytes old w h le p =
      elim (Bool-cases (ltb total (length bytes))) [
        | inr done ↦ (ok total, w, total, rw done refl, (ground arith, ground arith), p)
        | inl more ↦ elim (Result-cases (checked_offset_add offset total)) [
          | inr (e, far) ↦ (err e, w, total, rw (more, far) refl, le, p)
          | inl (c, near) ↦
              let at = checked_offset_add-value offset total c near in
              let rest = drop total bytes in
              let l = length-drop total bytes in
              let w' = (sys.pwrite_call fd rest c w).1 in
              elim (Syscall-cases (sys.pwrite_call fd rest c w).0) [
                | inl nothing ↦
                    let (fits, real, fewer) = law.pwrote 0 c rest w nothing in
                    (
                      err zero_pwrite,
                      w',
                      total,
                      rw (more, near, nothing) refl,
                      le,
                      λ i. ground (arith, real i, p i),
                    )
                | inr (inl (n, part)) ↦
                    let (fits, real, fewer) = law.pwrote (suc n) c rest w part in
                    let (r, v, k, ends, counts, holds) =
                      write_at_loop_lem fuel offset (total + suc n) bytes old w'
                        (omega (arith, h, fewer, l, fits, ltb→lt _ _ more))
                        (omega (arith, l, fits, le))
                        (λ i. ground (
                          arith,
                          real i,
                          p i,
                          at,
                          patched-patched old offset total (suc n) i bytes,
                        )) in
                    (r, v, k, rw (more, near, part) ends, counts, holds)
                | inr (inr (inl interrupted)) ↦
                    let (r, v, k, ends, counts, holds) =
                      write_at_loop_lem fuel offset total bytes old w'
                        (omega (arith, h, law.pwrite_interrupted c rest w interrupted)) le
                        (λ i. law.pwrite_failed Errno.eintr c rest w interrupted i ∙ p i) in
                    (r, v, k, rw (more, near, interrupted) ends, counts, holds)
                | inr (inr (inr (e, refused, ne))) ↦ (
                  err (from_errno e),
                  w',
                  total,
                  rw (more, near, refused, ne) refl,
                  le,
                  λ i. law.pwrite_failed e c rest w refused i ∙ p i,
                )
              ]
        ]
      ]

  -- Where `pwrite` answers as documented, `write_at_fd_sync` ends once it has been called for each byte and
  -- each signal at most: with `Ok` of the length and all bytes in the file from `offset` on, or with an
  -- error and a prefix of them; nothing else of the file changes.
  pub write_at_fd_sync_lem :
      (offset : ℕ) (bytes : List ℕ) (w : W)
      → (r : Result ℕ) × (w' : W) × (k : ℕ) × (write_at_fd_sync sys
            (length bytes + law.interrupts w + 1)
            fd
            offset
            bytes
            w
          ≡ some (r, w'))
        × Counts bytes r k
        × ((i : ℕ) → law.content w' i ≡ patched (law.content w) offset bytes k i)
  unfolding write_at_fd_sync
  write_at_fd_sync_lem offset bytes w =
      write_at_loop_lem (length bytes + law.interrupts w + 1) offset 0 bytes (law.content w) w
        (omega arith) (omega arith) (λ i. ground arith)
