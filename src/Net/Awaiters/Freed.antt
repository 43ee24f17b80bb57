-- ===== src/Net/Awaiters/Freed.antt =====
-- What `EpollReactor::deregister(fd, dir)` of src/async/io_reactor.hpp leaves, for the cancellations.
use rain.Base.{
  ℕ, false, sym, update_self, if◌then◌else◌, ◌<◌, ◌≡◌, refl, ◌∙◌, ap, inl, inr, pos, Bool, true,
  not, ◌&&◌, Option, none, some, is_some, arith, leb, Bool-cases,
}
use rain.Async.Reactor.Slots.{
  Epoll, IoEvent, read_event, write_event, PendingEntry, FdEntry, World, reset_if, has_flag,
  put_slot,
}
use rain.Async.Reactor.Poll.{set_reactor, rearm_or_erase}
use rain.Async.Reactor.Decided.{rearm-kernel}
use rain.Async.Reactor.Register.{deregister_dir}

if_same {ℓ} : {A : Type ℓ} (b : Bool) (a : A) → (if b then a else a) ≡ a
if_same true a = refl
if_same false a = refl

-- The slot that is left for a set of directions.
abbrev pub freed : IoEvent → FdEntry → FdEntry
freed dir e = record {
  read = reset_if (has_flag dir read_event) e.read;
  write = reset_if (has_flag dir write_event) e.write;
}

freed-idle :
    (dir : IoEvent) (r v : Option PendingEntry)
    → (not (is_some r) && not (is_some v)) ≡ true
    → freed dir (record { read = r; write = v }) ≡ record { read = r; write = v }
freed-idle dir none none h = simp if_same refl
freed-idle dir none (some v) h = absurd (ground (arith, h))
freed-idle dir (some r) v h = absurd (ground (arith, h))

module _ {K : Type 0} (epoll : Epoll K) where
  -- The reactor after a deregistration: its slot is freed in the directions, and nothing else is changed.
  pub deregister_dir-freed :
      (i : ℕ) (dir : IoEvent) (w : World K)
      → i < w.reactor.slots_size
      → let v = deregister_dir epoll (pos i) dir w in
        (v.reactor.slots i ≡ freed dir (w.reactor.slots i))
        × (v.reactor.ready ≡ w.reactor.ready)
        × (v.states ≡ w.states)
        × (v.results ≡ w.results)
  unfolding deregister_dir
  deregister_dir-freed i dir w h =
      let e = w.reactor.slots i in
      let within : leb w.reactor.slots_size i ≡ false = ground (arith, h) in
      let emptied = set_reactor w (put_slot i (freed dir e) w.reactor) in
      let (table, states, results) = rearm-kernel epoll (pos i) emptied in
      elim (Bool-cases (not (is_some e.read) && not (is_some e.write))) [
        | inl idle ↦
            let same : deregister_dir epoll (pos i) dir w ≡ w = simp (within, idle) refl in
            rw same (sym (freed-idle dir e.read e.write idle), refl, refl, refl)
        | inr busy ↦
            let rearmed : deregister_dir epoll (pos i) dir w
                ≡ rearm_or_erase epoll (pos i) emptied =
              simp (within, busy) refl in
            rw rearmed (
              ap (λ r. r.slots i) table ∙ update_self w.reactor.slots i (freed dir e),
              ap (λ r. r.ready) table,
              states,
              results,
            )
      ]
