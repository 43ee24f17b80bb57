-- ===== src/Fs/Detail/Positions/ReadAt.antt =====
-- `read_at_fd_sync` of src/fs/detail.hpp ends and reads what the file holds.
use rain.Base.{
  ℕ, zero, suc, ◌+◌, ◌-◌, ◌≤◌, ◌<◌, ◌≡◌, refl, sym, ◌∙◌, ap, inl, inr, List, [], ◌∷◌, ◌++◌, some,
  arith, ltb, length, length-append, take, drop, length-drop, take-take, take-all, drop-drop,
  Bool-cases, ltb→lt, ℤ,
}
use rain.Core.{Result, ok, err, from_errno, Received-cases, Result-cases}
use rain.Fs.System.{System, Preads}
use rain.Fs.Detail.{read_at_loop, read_at_fd_sync, checked_offset_add, checked_offset}

-- What an answer says of the file.
abbrev pub Reads : List ℕ → ℕ → ℕ → Result (List ℕ) → Type 0
Reads file offset len (ok bytes) = bytes ≡ take len (drop offset file)
Reads file offset len (err e) = Unit

pub checked_offset_add-value :
    (offset delta c : ℕ) → checked_offset_add offset delta ≡ ok c → c ≡ offset + delta
unfolding checked_offset_add
checked_offset_add-value offset delta c h = ground arith

-- A part read at an offset past what was read lengthens it.
joins :
    (file bytes more : List ℕ) (offset : ℕ)
    → bytes ≡ take (length bytes) (drop offset file)
    → more ≡ take (length more) (drop (offset + length bytes) file)
    → bytes ++ more ≡ take (length (bytes ++ more)) (drop offset file)
joins file bytes more offset p q =
    let e = take-take (length bytes) (length more) (drop offset file) in
    ground (arith, e, p, q, drop-drop offset (length bytes) file, length-append bytes more)

-- At the end of the file a longer request would read no more.
at_end :
    (file bytes : List ℕ) (offset len : ℕ)
    → bytes ≡ take (length bytes) (drop offset file)
    → length file ≤ offset + length bytes
    → length bytes ≤ len
    → bytes ≡ take len (drop offset file)
at_end file bytes offset len p e le =
    let l = length-drop offset file in
    p
    ∙ take-all (length bytes) (drop offset file) (omega (arith, l, e))
    ∙ sym (take-all len (drop offset file) (omega (arith, l, e, le)))

module _ {W : Type 0} (sys : System W) (fd : ℤ) (law : Preads sys fd) where
  read_at_loop_lem :
      (fuel offset len : ℕ) (bytes : List ℕ) (w : W)
      → len - length bytes + law.interrupts w < fuel
      → length bytes ≤ len
      → bytes ≡ take (length bytes) (drop offset (law.contents w))
      → (r : Result (List ℕ)) × (w' : W) × (read_at_loop sys fuel fd offset len bytes w
          ≡ some (r, w'))
        × Reads (law.contents w) offset len r
  unfolding read_at_loop
  read_at_loop_lem zero offset len bytes w h le p = absurd (omega (arith, h))
  read_at_loop_lem (suc fuel) offset len bytes w h le p =
      elim (Bool-cases (ltb (length bytes) len)) [
        | inr done ↦
            let e : length bytes ≡ len = ground arith in
            (ok bytes, w, rw done refl, p ∙ ap (λ n. take n (drop offset (law.contents w))) e)
        | inl more ↦ elim (Result-cases (checked_offset_add offset (length bytes))) [
          | inr (e, far) ↦ (err e, w, rw (more, far) refl, tt)
          | inl (c, near) ↦
              let at = checked_offset_add-value offset (length bytes) c near in
              let ask = len - length bytes in
              let w' = (sys.pread_call fd ask c w).1 in
              let same = law.pread_keeps ask c w in
              elim (Received-cases (sys.pread_call fd ask c w).0) [
                | inl nothing ↦ (
                  ok bytes,
                  w',
                  rw (more, near, nothing) refl,
                  at_end (law.contents w) bytes offset len p
                      (omega
                        (arith, at, law.pread_end ask c w (omega (arith, ltb→lt _ _ more)) nothing))
                      le,
                )
                | inr (inl (b, bs, part)) ↦
                    let (fits, real, fewer) = law.pread_got ask c (b ∷ bs) w part in
                    let l = length-append bytes (b ∷ bs) in
                    let (r, v, ends, reads) =
                      read_at_loop_lem fuel offset len (bytes ++ (b ∷ bs)) w'
                        (omega (arith, h, fewer, l, fits, ltb→lt _ _ more))
                        (omega (arith, l, fits, le))
                        (rw same
                          (joins (law.contents w) bytes (b ∷ bs) offset p (rw (sym at) real))) in
                    (r, v, rw (more, near, part) ends, rw (sym same) reads)
                | inr (inr (inl interrupted)) ↦
                    let (r, v, ends, reads) =
                      read_at_loop_lem fuel offset len bytes w'
                        (omega (arith, h, law.pread_interrupted ask c w interrupted)) le
                        (rw same p) in
                    (r, v, rw (more, near, interrupted) ends, rw (sym same) reads)
                | inr (inr (inr (e, refused, ne))) ↦
                    (err (from_errno e), w', rw (more, near, refused, ne) refl, tt)
              ]
        ]
      ]

  -- Where `pread` answers as documented, `read_at_fd_sync` ends once it has been called for each byte and
  -- each signal at most, and if it answers `Ok` then with the bytes of the file from `offset` on, `len` of
  -- them or as many as there are, however the reads are split.
  pub read_at_fd_sync_lem :
      (offset len : ℕ) (w : W)
      → (r : Result (List ℕ)) × (w' : W) × (read_at_fd_sync sys
            (len + law.interrupts w + 1)
            fd
            offset
            len
            w
          ≡ some (r, w'))
        × Reads (law.contents w) offset len r
  unfolding read_at_fd_sync
  read_at_fd_sync_lem offset len w = elim (Result-cases (checked_offset offset)) [
    | inr (e, far) ↦ (err e, w, rw (read_at_fd_sync, far) refl, tt)
    | inl (c, near) ↦
        let (r, w', ends, reads) =
          read_at_loop_lem (len + law.interrupts w + 1) offset len [] w (omega arith) (omega arith)
            refl in
        (r, w', rw (read_at_fd_sync, near) ends, reads)
  ]
