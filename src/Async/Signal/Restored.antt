-- ===== src/Async/Signal/Restored.antt =====
-- The mask of the thread on which src/async/event_loop.hpp sets signals up.
use rain.Base.{
  ℕ, ◌+◌, ◌-◌, ◌≡◌, refl, ◌∙◌, ◌⊎◌, inl, inr, ℤ, pos, is_negative, false, List, none, some, arith,
}
use rain.Core.{Syscall-outcome, ok, err, SystemError, one_at, opens, closes}
use rain.Async.Signal.{
  SignalSystem, SignalSet, SignalLoop, How, mask_for, create_set, close_set, drop_signals,
  add_signals, thread_of,
}

-- The mask of the calling thread, `mask_of`, and the place of descriptor `d` in the table of open descriptors, as
-- the system documents its calls: closing `d` takes it away, if it is there. `pthread_sigmask` answers 0 or the number of an error, which is positive; with a known `how` it
-- does not fail, and `both` joins the signals to be blocked to the mask.
pub record Documented {K Mask : Type 0} (sys : SignalSystem K Mask) (mask_of : K → Mask)
    (both : Mask → Mask → Mask) (d : ℕ) (opened : K → ℕ) : Type 0 where
  pub block_answers : (m : Mask) (k : K) → (sys.pthread_sigmask How.sig_block m k).0 ≡ pos 0
  pub block_found : (m : Mask) (k : K) → (sys.pthread_sigmask How.sig_block m k).1 ≡ mask_of k
  pub block_mask :
      (m : Mask) (k : K) → mask_of (sys.pthread_sigmask How.sig_block m k).2 ≡ both m (mask_of k)
  pub set_mask : (m : Mask) (k : K) → mask_of (sys.pthread_sigmask How.sig_setmask m k).2 ≡ m
  pub sigmask_counts :
      (how : How) (m : Mask) (k : K) → opened (sys.pthread_sigmask how m k).2 ≡ opened k
  pub signalfd_mask : (m : Mask) (k : K) → mask_of (sys.signalfd m k).1 ≡ mask_of k
  pub signalfd_counts :
      (m : Mask) (k : K) → opened (sys.signalfd m k).1 ≡ opened k + opens d (sys.signalfd m k).0
  pub close_counts :
      (fd : ℕ) (k : K) → opened (sys.close_signalfd (pos fd) k).1 ≡ opened k - one_at d fd

module _ {K Mask : Type 0} (sys : SignalSystem K Mask) (mask_of : K → Mask)
    (both : Mask → Mask → Mask) (d : ℕ) (opened : K → ℕ)
    (doc : Documented sys mask_of both d opened) where
  -- A set that was made, from the mask that the thread had.
  record Made (signals : List ℤ) (k : K) (s : SignalSet Mask) (k' : K) : Type 0 where
    number : ℕ
    at : s.fd ≡ pos number
    found : s.old_mask ≡ mask_of k
    for : s.mask ≡ mask_for sys signals
    blocked : mask_of k' ≡ both (mask_for sys signals) (mask_of k)
    one_more : opened k' ≡ opened k + one_at d number

  create_set-Made :
      (signals : List ℤ) (k : K)
      → let (r, k') = create_set sys signals k in
        ((s : SignalSet Mask) × (r ≡ ok s) × Made signals k s k')
        ⊎ ((e : SystemError) × (r ≡ err e) × (mask_of k' ≡ mask_of k) × (opened k' ≡ opened k))
  unfolding create_set
  create_set-Made signals k =
      let m = mask_for sys signals in
      let k1 = (sys.pthread_sigmask How.sig_block m k).2 in
      let k2 = (sys.signalfd m k1).1 in
      let found = doc.block_found m k in
      let old = (sys.pthread_sigmask How.sig_block m k).1 in
      let counted = doc.signalfd_counts m k1 in
      let same = doc.sigmask_counts How.sig_block m k in
      elim (Syscall-outcome (sys.signalfd m k1).0) [
        | inl (fd, e) ↦
            let opened' : opened k2 ≡ opened k1 + one_at d fd = rw e at counted in
            simp (doc.block_answers m k, e)
              (inl (
                _,
                refl,
                record {
                  number = fd;
                  at = refl;
                  found = found;
                  for = refl;
                  blocked = doc.signalfd_mask m k1 ∙ doc.block_mask m k;
                  one_more = omega (arith, opened', same);
                },
              ))
        | inr (x, e) ↦
            let opened' : opened k2 ≡ opened k1 + 0 = rw e at counted in
            let back = doc.sigmask_counts How.sig_setmask old k2 in
            simp (doc.block_answers m k, e)
              (inr (_, refl, doc.set_mask old k2 ∙ found, omega (arith, opened', same, back)))
      ]

  drop-none : (k : K) → drop_signals sys none k ≡ k
  unfolding drop_signals
  drop-none k = refl

  -- The end of a set puts the mask that it found back.
  drop-Made :
      (s : SignalSet Mask) (n : ℕ) (k : K)
      → s.fd ≡ pos n
      → (mask_of (drop_signals sys (some s) k) ≡ s.old_mask)
        × (opened (drop_signals sys (some s) k) ≡ opened k - one_at d n)
  unfolding drop_signals close_set
  drop-Made s n k e =
      let k1 = (sys.close_signalfd s.fd k).1 in
      let closed : opened k1 ≡ opened k - one_at d n = rw e (doc.close_counts n k) in
      let same = doc.sigmask_counts How.sig_setmask s.old_mask k1 in
      let open_still : is_negative s.fd ≡ false = rw e refl in
      rw (drop_signals, close_set, open_still)
        (doc.set_mask s.old_mask k1, omega (arith, closed, same))

  -- `add_signals` on a loop without signals, at any descriptor `d`. Where it fails, the thread's mask and whether
  -- `d` is open are as before and the loop has no signals still; where it succeeds, the loop has a set for exactly
  -- those signals, they are blocked on top of what was, the set's descriptor is open besides, and the end of
  -- the set closes that and no other and puts back the mask that was found.
  pub add_signals_lem :
      (signals : List ℤ) (l : SignalLoop K Mask)
      → l.signals ≡ none
      → let (r, m) = add_signals sys signals l in
        ((e : SystemError) × (r ≡ err e)
          × (m.signals ≡ none)
          × (mask_of (thread_of m) ≡ mask_of (thread_of l))
          × (opened (thread_of m) ≡ opened (thread_of l)))
        ⊎ ((s : SignalSet Mask) × (r ≡ ok tt)
            × (m.signals ≡ some s)
            × (s.mask ≡ mask_for sys signals)
            × (mask_of (thread_of m) ≡ both (mask_for sys signals) (mask_of (thread_of l)))
            × (opened (thread_of m) ≡ opened (thread_of l) + closes d s.fd)
            × (mask_of (drop_signals sys m.signals (thread_of m)) ≡ mask_of (thread_of l))
            × (opened (drop_signals sys m.signals (thread_of m)) ≡ opened (thread_of l)))
  unfolding add_signals
  add_signals_lem signals l none_yet =
      let k' = (create_set sys signals (thread_of l)).1 in
      let nothing : drop_signals sys l.signals k' ≡ k' = rw none_yet (drop-none k') in
      elim (create_set-Made signals (thread_of l)) [
        | inl (s, e, m) ↦
            let (mask_back, closed) = drop-Made s m.number k' m.at in
            rw (add_signals, e, nothing)
              (inr (
                s,
                refl,
                refl,
                m.for,
                m.blocked,
                rw (m.at) m.one_more,
                mask_back ∙ m.found,
                omega (arith, closed, m.one_more),
              ))
        | inr (x, e, mask, same) ↦ rw (add_signals, e) (inl (x, refl, none_yet, mask, same))
      ]

  added-Made :
      (signals : List ℤ) (l : SignalLoop K Mask)
      → l.signals ≡ none
      → (add_signals sys signals l).0 ≡ ok tt
      → let m = (add_signals sys signals l).1 in
        (s : SignalSet Mask) × (m.signals ≡ some s) × Made signals (thread_of l) s (thread_of m)
  unfolding add_signals
  added-Made signals l none_yet well =
      let k' = (create_set sys signals (thread_of l)).1 in
      let nothing : drop_signals sys l.signals k' ≡ k' = rw none_yet (drop-none k') in
      elim (create_set-Made signals (thread_of l)) [
        | inl (s, e, m) ↦ rw (add_signals, e, nothing) (s, refl, m)
        | inr (x, e, mask, same) ↦
            let failed = rw (add_signals, e) at well in absurd (ground (arith, failed))
      ]

  -- The set that the loop held before ends only after the new one was made.
  again-Made :
      (signals : List ℤ) (l : SignalLoop K Mask) (s : SignalSet Mask) (n : ℕ)
      → l.signals ≡ some s
      → s.fd ≡ pos n
      → (add_signals sys signals l).0 ≡ ok tt
      → let m = (add_signals sys signals l).1 in
        (t : SignalSet Mask) × (k : K) × (m.signals ≡ some t)
        × Made signals (thread_of l) t k
        × (mask_of (thread_of m) ≡ s.old_mask)
  unfolding add_signals
  again-Made signals l s n held at well =
      let k' = (create_set sys signals (thread_of l)).1 in
      let ended : mask_of (drop_signals sys l.signals k') ≡ s.old_mask =
        rw held (drop-Made s n k' at).0 in
      elim (create_set-Made signals (thread_of l)) [
        | inl (t, e, m) ↦ rw (add_signals, e) (t, k', refl, m, ended)
        | inr (x, e, mask, same) ↦
            let failed = rw (add_signals, e) at well in absurd (ground (arith, failed))
      ]

  -- `add_signals` that succeeds a second time on a loop leaves the thread with the mask from before the first
  -- time, although the loop then holds a set for the second signals, and the end of that set puts back the
  -- mask with the first signals blocked.
  pub add_signals_again :
      (first second : List ℤ) (l : SignalLoop K Mask)
      → l.signals ≡ none
      → (add_signals sys first l).0 ≡ ok tt
      → let m = (add_signals sys first l).1 in
        (add_signals sys second m).0 ≡ ok tt
        → let n = (add_signals sys second m).1 in
          (s : SignalSet Mask) × (n.signals ≡ some s)
          × (s.mask ≡ mask_for sys second)
          × (mask_of (thread_of n) ≡ mask_of (thread_of l))
          × (mask_of (drop_signals sys n.signals (thread_of n))
              ≡ both (mask_for sys first) (mask_of (thread_of l)))
  add_signals_again first second l none_yet e1 e2 =
      let m = (add_signals sys first l).1 in
      let n = (add_signals sys second m).1 in
      let (s, held, made) = added-Made first l none_yet e1 in
      let (t, k, holds, again, mask) = again-Made second m s made.number held made.at e2 in
      let ended : mask_of (drop_signals sys n.signals (thread_of n)) ≡ t.old_mask =
        rw holds (drop-Made t again.number (thread_of n) again.at).0 in
      (t, holds, again.for, mask ∙ made.found, ended ∙ again.found ∙ made.blocked)
