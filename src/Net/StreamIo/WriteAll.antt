-- ===== src/Net/StreamIo/WriteAll.antt =====
-- `write_all` of src/net/stream_io_ops.hpp ends, and writes everything or a prefix.
use rain.Base.{
  ℕ, zero, suc, ◌+◌, ◌-◌, ◌≤◌, ◌<◌, ◌≡◌, refl, sym, ◌∙◌, ap, ◌⊎◌, inl, inr, true, List, ◌++◌, some,
  arith, ltb, length, take, drop, length-drop, append-nil, append_assoc, drop-drop, drop-all,
  take-append-drop, take-take, Bool-cases, ℤ, ◌||◌,
}
use rain.Core.{
  Errno, is_eintr, is_again, returned, failed, SystemError, Result, ok, err, from_errno,
  Syscall-outcome, Result-cases,
}
use rain.Net.StreamIo.{
  Stream, Direction, write_some, stream_write_loop, stream_write_all, eof_write,
}

-- `write` on one descriptor appends a prefix of its argument, or fails and writes nothing; waiting writes
-- nothing; `patience` bounds the calls that are still interrupted or would block.
pub record StreamWrites {W : Type 0} (io : Stream W) (fd : ℤ) : Type 0 where
  pub written : W → List ℕ
  pub patience : W → ℕ
  pub wrote :
      (n : ℕ) (bytes : List ℕ) (w : W)
      → (io.write_call fd bytes w).0 ≡ returned n
      → (n ≤ length bytes)
        × (written (io.write_call fd bytes w).1 ≡ written w ++ take n bytes)
        × (patience (io.write_call fd bytes w).1 ≤ patience w)
  pub write_failed :
      (e : Errno) (bytes : List ℕ) (w : W)
      → (io.write_call fd bytes w).0 ≡ failed e
      → written (io.write_call fd bytes w).1 ≡ written w
  pub write_retried :
      (e : Errno) (bytes : List ℕ) (w : W)
      → (io.write_call fd bytes w).0 ≡ failed e
      → (is_eintr e || is_again e) ≡ true
      → patience (io.write_call fd bytes w).1 < patience w
  pub waits :
      (w : W)
      → (written (io.wait_ready Direction.writing fd w).1 ≡ written w)
        × (patience (io.wait_ready Direction.writing fd w).1 ≤ patience w)

module _ {W : Type 0} (io : Stream W) (fd : ℤ) (law : StreamWrites io fd) where
  -- What one `write_some` does, from `w` to `v`.
  abbrev pub Wrote : List ℕ → W → Result ℕ → W → Type 0
  Wrote bytes w r v =
      ((n : ℕ) × (r ≡ ok n)
        × (n ≤ length bytes)
        × (law.written v ≡ law.written w ++ take n bytes)
        × (law.patience v ≤ law.patience w))
      ⊎ ((e : SystemError) × (r ≡ err e) × (law.written v ≡ law.written w))

  Wrote-later :
      (bytes : List ℕ) (w u : W) (r : Result ℕ) (v : W)
      → law.written u ≡ law.written w
      → law.patience u ≤ law.patience w
      → Wrote bytes u r v
      → Wrote bytes w r v
  Wrote-later bytes w u r v same less (inl (n, e, le, wrote, p)) =
      inl (n, e, le, wrote ∙ ap (λ l. l ++ take n bytes) same, omega (arith, p, less))
  Wrote-later bytes w u r v same less (inr (e, bad, kept)) = inr (e, bad, kept ∙ same)

  -- With fuel for each call that is interrupted or would block, `write_some` ends.
  write_some_lem :
      (fuel : ℕ) (bytes : List ℕ) (w : W)
      → law.patience w < fuel
      → (r : Result ℕ) × (v : W) × (write_some io fuel fd bytes w ≡ some (r, v)) × Wrote bytes w r v
  unfolding write_some
  write_some_lem zero bytes w h = absurd (omega (arith, h))
  write_some_lem (suc fuel) bytes w h =
      let w' = (io.write_call fd bytes w).1 in
      elim (Syscall-outcome (io.write_call fd bytes w).0) [
        | inl (n, e) ↦
            let (le, wrote, p) = law.wrote n bytes w e in
            (ok n, w', rw (write_some, e) refl, inl (n, refl, le, wrote, p))
        | inr (x, e) ↦
            let same = law.write_failed x bytes w e in
            elim (Bool-cases (is_eintr x)) [
              | inl again ↦
                  let less = law.write_retried x bytes w e (ground (arith, again)) in
                  let (r, v, ends, did) = write_some_lem fuel bytes w' (omega (arith, h, less)) in
                  (
                    r,
                    v,
                    rw (write_some, e, again) ends,
                    Wrote-later bytes w w' r v same (omega (arith, less)) did,
                  )
              | inr no_signal ↦ elim (Bool-cases (is_again x)) [
                | inr bad ↦ (
                  err (from_errno x),
                  w',
                  rw (write_some, e, no_signal, bad) refl,
                  inr (from_errno x, refl, same),
                )
                | inl blocked ↦
                    let less = law.write_retried x bytes w e (ground (arith, blocked)) in
                    let (kept, p) = law.waits w' in
                    let w2 = (io.wait_ready Direction.writing fd w').1 in
                    elim (Result-cases (io.wait_ready Direction.writing fd w').0) [
                      | inr (y, lost) ↦ (
                        err y,
                        w2,
                        rw (write_some, e, no_signal, blocked, lost) refl,
                        inr (y, refl, kept ∙ same),
                      )
                      | inl (u, is_ready) ↦
                          let (r, v, ends, did) =
                            write_some_lem fuel bytes w2 (omega (arith, h, less, p)) in
                          (
                            r,
                            v,
                            rw (write_some, e, no_signal, blocked, is_ready) ends,
                            Wrote-later bytes w w2 r v (kept ∙ same) (omega (arith, less, p)) did,
                          )
                    ]
              ]
            ]
      ]

  -- How the loop may end: with the length and all of the rest written, or with an error and a prefix.
  abbrev pub WroteAll : List ℕ → ℕ → W → Result ℕ → W → Type 0
  WroteAll bytes total w r v =
      ((r ≡ ok (length bytes)) × (law.written v ≡ law.written w ++ drop total bytes))
      ⊎ ((e : SystemError) × (k : ℕ) × (r ≡ err e)
          × (law.written v ≡ law.written w ++ take k (drop total bytes)))

  WroteAll-later :
      (bytes : List ℕ) (total n : ℕ) (w u : W) (r : Result ℕ) (v : W)
      → law.written u ≡ law.written w ++ take n (drop total bytes)
      → WroteAll bytes (total + n) u r v
      → WroteAll bytes total w r v
  WroteAll-later bytes total n w u r v mid (inl (e, all)) = inl (
    e,
    all
        ∙ rw
            (
              mid,
              append_assoc (law.written w) (take n (drop total bytes)) (drop (total + n) bytes),
              sym (drop-drop total n bytes),
              take-append-drop n (drop total bytes),
            )
            refl,
  )
  WroteAll-later bytes total n w u r v mid (inr (e, k, bad, part)) = inr (
    e,
    n + k,
    bad,
    part
        ∙ rw
            (
              mid,
              append_assoc (law.written w) (take n (drop total bytes))
                  (take k (drop (total + n) bytes)),
              sym (drop-drop total n bytes),
              take-take n k (drop total bytes),
            )
            refl,
  )

  stream_write_loop_lem :
      (fuel inner total : ℕ) (bytes : List ℕ) (w : W)
      → law.patience w < inner
      → length bytes - total < fuel
      → total ≤ length bytes
      → (r : Result ℕ) × (v : W) × (stream_write_loop io fuel inner fd bytes total w ≡ some (r, v))
        × WroteAll bytes total w r v
  unfolding stream_write_loop
  stream_write_loop_lem zero inner total bytes w h k le = absurd (omega (arith, k))
  stream_write_loop_lem (suc fuel) inner total bytes w h k le =
      elim (Bool-cases (ltb total (length bytes))) [
        | inr done ↦
            let e : total ≡ length bytes = ground arith in
            (
              ok total,
              w,
              rw (stream_write_loop, done) refl,
              inl (
                ap ok e,
                sym (
                    ap (λ l. law.written w ++ l) (drop-all total bytes (omega (arith, e)))
                    ∙ append-nil (law.written w)),
              ),
            )
        | inl more ↦
            let rest = drop total bytes in
            let (r, u, ends, did) = write_some_lem inner rest w h in
            elim did [
              | inr (e, bad, same) ↦ (
                err e,
                u,
                rw (stream_write_loop, more, ends, bad) refl,
                inr (e, 0, refl, same ∙ sym (append-nil (law.written w))),
              )
              | inl (zero, good, fits, wrote, p) ↦ (
                err eof_write,
                u,
                rw (stream_write_loop, more, ends, good) refl,
                inr (eof_write, 0, refl, wrote),
              )
              | inl (suc n, good, fits, wrote, p) ↦
                  let l = length-drop total bytes in
                  let (r', v, ends', all) =
                    stream_write_loop_lem fuel inner (total + suc n) bytes u (omega (arith, h, p))
                      (omega (arith, k, l, fits)) (omega (arith, l, fits, le)) in
                  (
                    r',
                    v,
                    rw (stream_write_loop, more, ends, good) ends',
                    WroteAll-later bytes total (suc n) w u r' v wrote all,
                  )
            ]
      ]

  -- Where the calls behave as documented, `write_all` ends, each `write_some` having fuel for the calls
  -- that are interrupted or would block and the loop for each byte: with `Ok` of the length and all of the
  -- bytes written in order, or with an error and a prefix of them.
  pub stream_write_all_lem :
      (bytes : List ℕ) (w : W)
      → (r : Result ℕ) × (v : W) × (stream_write_all io
            (length bytes + 1)
            (law.patience w + 1)
            fd
            bytes
            w
          ≡ some (r, v))
        × WroteAll bytes 0 w r v
  unfolding stream_write_all
  stream_write_all_lem bytes w =
      stream_write_loop_lem (length bytes + 1) (law.patience w + 1) 0 bytes w (omega arith)
        (omega arith) (omega arith)
