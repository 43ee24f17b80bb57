-- ===== src/Async/Reactor/Registration.antt =====
-- `register_read` and `register_write` of src/async/io_reactor.hpp on all their branches.
use Prim.Native.Nat.{bit_or}
use rain.Base.{
  Option, ℕ, ◌≡◌, refl, ap, ◌⊎◌, inl, inr, ◌≢◌, none, some, is_some, if◌then◌else◌, update, ℤ, pos,
  arith, Option-cases,
}
use rain.Core.{Result, SystemError, Result-cases, ok, err}
use rain.Async.Reactor.Slots.{
  IoEvent, Epoll, PendingEntry, FdEntry, World, ensure_slot, read_event, write_event, edge_trig,
  one_shot, put_slot,
}
use rain.Async.Reactor.Poll.{set_reactor, ensure}
use rain.Async.Reactor.Register.{register_read, register_write, busy_read, busy_write, install}

-- Registering in one direction, from `w` to what is answered.
abbrev pub AllOrNothing :
    {K : Type 0}
    → (FdEntry → Option PendingEntry)
    → (FdEntry → Option PendingEntry)
    → ℕ
    → PendingEntry
    → World K
    → Result (Unit {0}) × World K
    → Type 0
AllOrNothing mine other i entry w (r, v) =
    (((r ≡ ok tt) × (mine (w.reactor.slots i) ≡ none) × (mine (v.reactor.slots i) ≡ some entry))
      ⊎ ((e : SystemError) × (r ≡ err e) × (mine (v.reactor.slots i) ≡ mine (w.reactor.slots i))))
    × (other (v.reactor.slots i) ≡ other (w.reactor.slots i))
    × ((j : ℕ) → j ≢ i → v.reactor.slots j ≡ w.reactor.slots j)

module _ {K : Type 0} (epoll : Epoll K) where
  ensure-reactor :
      (fd : ℤ) (interest : IoEvent) (w : World K)
      → (ensure epoll fd interest w).1.reactor ≡ w.reactor
  unfolding ensure
  ensure-reactor fd interest w = ground arith

  -- The table after `install`, whether `ensure` succeeds or not.
  install-slots :
      (i : ℕ) (armed back : FdEntry) (interest : IoEvent) (w : World K)
      → let (r, v) = install epoll i armed back interest w in
        ((r ≡ ok tt) × (v.reactor.slots ≡ update w.reactor.slots i armed))
        ⊎ ((e : SystemError) × (r ≡ err e)
            × (v.reactor.slots ≡ update (update w.reactor.slots i armed) i back))
  install-slots i armed back interest w =
      let installed = set_reactor w (put_slot i armed w.reactor) in
      let kernel = ap (λ r. r.slots) (ensure-reactor (pos i) interest installed) in
      elim (Result-cases (ensure epoll (pos i) interest installed).0) [
        | inl (u, k) ↦ inl (rw (install, k) refl, rw (install, k) kernel)
        | inr (x, k) ↦
            inr (x, rw (install, k) refl, rw (install, k) (ap (λ f. update f i back) kernel))
      ]

  pub register_read_lem :
      (i : ℕ) (entry : PendingEntry) (w : World K)
      → let (r, v) = register_read epoll (pos i) entry w in
        let before = w.reactor.slots i in
        let after = v.reactor.slots i in
        (((r ≡ ok tt) × (before.read ≡ none) × (after.read ≡ some entry))
          ⊎ ((e : SystemError) × (r ≡ err e) × (after.read ≡ before.read)))
        × (after.write ≡ before.write)
        × ((j : ℕ) → j ≢ i → v.reactor.slots j ≡ w.reactor.slots j)
  unfolding register_read
  register_read_lem i entry w =
      let w' = set_reactor w (ensure_slot i w.reactor) in
      let e = w'.reactor.slots i in
      let same : w'.reactor.slots ≡ w.reactor.slots = ground arith in
      let base = bit_or (bit_or read_event edge_trig) one_shot in
      let interest = if is_some e.write then bit_or base write_event else base in
      let armed : FdEntry = record e { read = some entry } in
      elim (Option-cases e.read) [
        | inr (busy, b) ↦
            rw (register_read, b)
              (
                inr (busy_read, refl, ground (arith, same)),
                ground (arith, same),
                λ j h. ground (arith, same),
              )
        | inl free ↦ elim (install-slots i armed (record e { read = none }) interest w') [
          | inl (good, table) ↦
              rw (register_read, free, good, table)
                (
                  inl (refl, ground (arith, same, free), ground arith),
                  ground (arith, same),
                  λ j h. ground (arith, same, h),
                )
          | inr (x, bad, table) ↦
              rw (register_read, free, bad, table)
                (
                  inr (x, refl, ground (arith, same, free)),
                  ground (arith, same),
                  λ j h. ground (arith, same, h),
                )
        ]
      ]

  register_write_lem :
      (i : ℕ) (entry : PendingEntry) (w : World K)
      → let (r, v) = register_write epoll (pos i) entry w in
        let before = w.reactor.slots i in
        let after = v.reactor.slots i in
        (((r ≡ ok tt) × (before.write ≡ none) × (after.write ≡ some entry))
          ⊎ ((e : SystemError) × (r ≡ err e) × (after.write ≡ before.write)))
        × (after.read ≡ before.read)
        × ((j : ℕ) → j ≢ i → v.reactor.slots j ≡ w.reactor.slots j)
  unfolding register_write
  register_write_lem i entry w =
      let w' = set_reactor w (ensure_slot i w.reactor) in
      let e = w'.reactor.slots i in
      let same : w'.reactor.slots ≡ w.reactor.slots = ground arith in
      let base = bit_or (bit_or write_event edge_trig) one_shot in
      let interest = if is_some e.read then bit_or base read_event else base in
      let armed : FdEntry = record e { write = some entry } in
      elim (Option-cases e.write) [
        | inr (busy, b) ↦
            rw (register_write, b)
              (
                inr (busy_write, refl, ground (arith, same)),
                ground (arith, same),
                λ j h. ground (arith, same),
              )
        | inl free ↦ elim (install-slots i armed (record e { write = none }) interest w') [
          | inl (good, table) ↦
              rw (register_write, free, good, table)
                (
                  inl (refl, ground (arith, same, free), ground arith),
                  ground (arith, same),
                  λ j h. ground (arith, same, h),
                )
          | inr (x, bad, table) ↦
              rw (register_write, free, bad, table)
                (
                  inr (x, refl, ground (arith, same, free)),
                  ground (arith, same),
                  λ j h. ground (arith, same, h),
                )
        ]
      ]

  -- Registering for reads, and for writes, is all or nothing: it succeeds only where nothing was pending in its
  -- direction, and then the entry waits in the slot; or it answers an error and what was pending is as
  -- before. The other direction and all other slots are not touched.
  pub register_lem :
      (i : ℕ) (entry : PendingEntry) (w : World K)
      → AllOrNothing (λ e. e.read) (λ e. e.write) i entry w (register_read epoll (pos i) entry w)
        × AllOrNothing (λ e. e.write) (λ e. e.read) i entry w (register_write epoll (pos i) entry w)
  register_lem i entry w = (register_read_lem i entry w, register_write_lem i entry w)
