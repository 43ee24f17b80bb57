-- ===== src/Async/Timer/Slotmap/Inv.antt =====
-- The invariant of the entry table of src/async/timer.hpp: the free stack holds each inactive index
-- once and nothing else, the count is that of the active entries, and these know their ids.
use rain.Base.{
  ℕ, zero, suc, ◌+◌, ◌%◌, ◌^◌, ◌≤◌, ◌<◌, ◌≡◌, refl, ap, inl, inr, Bool, true, false, List, [], ◌∷◌,
  arith, ltb, ◌==◌, if◌then◌else◌, count, update, Bool-cases,
}
use rain.Async.Timer.Slotmap.{
  TimerEntry, Slot, Entries, empty_slot, no_entries, encode_id, id_index, is_valid, allocate,
  allocate_from, activate, acquire, retire, cancel, release,
}

abbrev pub one_if : Bool → ℕ
one_if true = 1
one_if false = 0

-- The number of active slots below `n`.
abbrev pub actives : (ℕ → Slot) → ℕ → ℕ
actives m zero = 0
actives m (suc n) = one_if (m n).active + actives m n

-- How often the free stack has to hold an index.
abbrev pub vacancy : Entries → ℕ → ℕ
vacancy e i = if ltb i e.slotmap_size then (if (e.slotmap i).active then 0 else 1) else 0

pub record IsSound (e : Entries) : Type 0 where
  pub free_once : (i : ℕ) → count i e.free_indices ≡ vacancy e i
  pub counted : e.active_count ≡ actives e.slotmap e.slotmap_size
  pub tagged :
      (i : ℕ)
      → i < e.slotmap_size
      → (e.slotmap i).active ≡ true
      → (e.slotmap i).entry.id ≡ encode_id i (e.slotmap i).generation
  pub unused : (i : ℕ) → e.slotmap_size ≤ i → (e.slotmap i).active ≡ false
  pub untouched : (i : ℕ) → e.slotmap_size ≤ i → (e.slotmap i).generation ≡ 0

actives-update_above :
    (m : ℕ → Slot) (i : ℕ) (s : Slot) (n : ℕ) → n ≤ i → actives (update m i s) n ≡ actives m n
actives-update_above m i s zero h = refl
actives-update_above m i s (suc n) h = ground (arith, actives-update_above m i s n)

actives-update :
    (m : ℕ → Slot) (i : ℕ) (s : Slot) (n : ℕ)
    → i < n
    → actives (update m i s) n + one_if (m i).active ≡ actives m n + one_if s.active
actives-update m i s zero h = elim h [ ]
actives-update m i s (suc n) h =
    ground (arith, actives-update m i s n, actives-update_above m i s n)

pub no_entries-IsSound : IsSound no_entries
no_entries-IsSound = record {
  free_once = λ i. ground arith;
  counted = refl;
  tagged = λ i h a. absurd (omega arith);
  unused = λ i h. refl;
  untouched = λ i h. refl;
}

-- A valid entry is retired: its index goes to the free stack.
retire-IsSound :
    (i : ℕ) (e : Entries)
    → i < e.slotmap_size
    → (e.slotmap i).active ≡ true
    → IsSound e
    → IsSound (retire i e)
retire-IsSound i e h a s = record {
  free_once = λ j. ground (arith, s.free_once j);
  counted = ground (
    arith,
    s.counted,
    actives-update e.slotmap i (record (e.slotmap i) { active = false }) e.slotmap_size h,
  );
  tagged = λ j k b. ground (arith, s.tagged j);
  unused = λ j k. ground (arith, s.unused j);
  untouched = λ j k. ground (arith, s.untouched j);
}

-- `release` keeps the table sound, for any id.
pub release-IsSound : (id : ℕ) (e : Entries) → IsSound e → IsSound (release id e)
unfolding release
release-IsSound id e s = elim (Bool-cases (is_valid e id)) [
  | inl valid ↦ rw valid (retire-IsSound (id_index id) e (ground arith) (ground arith) s)
  | inr stale ↦ rw stale s
]

-- `cancel` does what `release` does, and says whether the id was valid.
pub cancel_lem : (id : ℕ) (e : Entries) → cancel id e ≡ (is_valid e id, release id e)
unfolding cancel release
cancel_lem id e = ground arith

-- What `acquire` needs of the table: the new index and the new generation fit into an id.
pub record HasRoom (e : Entries) : Type 0 where
  pub indices : e.slotmap_size < 2 ^ 24
  pub generations : (i : ℕ) → (e.slotmap i).generation + 1 < 2 ^ 40

-- An index handed out is in range and inactive, and no longer on the free stack.
pub record IsAllocated (index : ℕ) (e : Entries) : Type 0 where
  pub in_range : index < e.slotmap_size
  pub small : e.slotmap_size ≤ 2 ^ 24
  pub vacant : (e.slotmap index).active ≡ false
  pub fresh : (e.slotmap index).generation + 1 < 2 ^ 40
  pub free_else : (i : ℕ) → count i e.free_indices + (if index == i then 1 else 0) ≡ vacancy e i
  pub counted : e.active_count ≡ actives e.slotmap e.slotmap_size
  pub tagged :
      (i : ℕ)
      → i < e.slotmap_size
      → (e.slotmap i).active ≡ true
      → (e.slotmap i).entry.id ≡ encode_id i (e.slotmap i).generation
  pub unused : (i : ℕ) → e.slotmap_size ≤ i → (e.slotmap i).active ≡ false
  pub untouched : (i : ℕ) → e.slotmap_size ≤ i → (e.slotmap i).generation ≡ 0

allocate_from-IsAllocated :
    (e : Entries) (free : List ℕ)
    → e.free_indices ≡ free
    → HasRoom e
    → IsSound e
    → IsAllocated (allocate_from e free).0 (allocate_from e free).1
unfolding allocate_from
allocate_from-IsAllocated e [] f r s =
    let index_eq : e.slotmap_size % 2 ^ 32 ≡ e.slotmap_size = omega (arith, r.indices) in
    rw index_eq (record {
      in_range = omega arith;
      small = omega (arith, r.indices);
      vacant = ground arith;
      fresh = ground arith;
      free_else = λ i. ground (arith, s.free_once i, ap (count i) f, s.unused i);
      counted = ground (
        arith,
        s.counted,
        actives-update_above e.slotmap e.slotmap_size empty_slot e.slotmap_size,
      );
      tagged = λ i h a. ground (arith, s.tagged i);
      unused = λ i h. ground (arith, s.unused i);
      untouched = λ i h. ground (arith, s.untouched i);
    })
allocate_from-IsAllocated e (x ∷ rest) f r s = record {
  in_range = ground (arith, s.free_once x, ap (count x) f);
  small = omega (arith, r.indices);
  vacant = ground (arith, s.free_once x, ap (count x) f);
  fresh = r.generations x;
  free_else = λ i. ground (arith, s.free_once i, ap (count i) f);
  counted = s.counted;
  tagged = s.tagged;
  unused = s.unused;
  untouched = s.untouched;
}

pub allocate-IsAllocated :
    (e : Entries) → HasRoom e → IsSound e → IsAllocated (allocate e).0 (allocate e).1
unfolding allocate
allocate-IsAllocated e r s = allocate_from-IsAllocated e e.free_indices refl r s

-- What `make` builds carries the id that it is given.
abbrev pub KeepsId : (ℕ → TimerEntry) → Type 0
KeepsId make = (id : ℕ) → (make id).id ≡ id

activate-IsSound :
    (index : ℕ) (e : Entries) (make : ℕ → TimerEntry)
    → KeepsId make
    → IsAllocated index e
    → IsSound (activate index e make).1
unfolding activate
activate-IsSound index e make keeps a = record {
  free_once = λ i. ground (arith, a.free_else i, a.vacant, a.in_range);
  counted = ground (
    arith,
    a.counted,
    a.vacant,
    actives-update e.slotmap index
        (record {
          entry = make (encode_id index (((e.slotmap index).generation + 1) % 2 ^ 64));
          generation = ((e.slotmap index).generation + 1) % 2 ^ 64;
          active = true;
        })
        e.slotmap_size a.in_range,
  );
  tagged = λ i h b.
      ground
        (arith, a.tagged i, keeps (encode_id index (((e.slotmap index).generation + 1) % 2 ^ 64)));
  unused = λ i h. ground (arith, a.unused i, a.in_range);
  untouched = λ i h. ground (arith, a.untouched i, a.in_range);
}

-- The table stays sound when `schedule_at` takes an entry, if it has room for one.
pub acquire-IsSound :
    (e : Entries) (make : ℕ → TimerEntry)
    → KeepsId make
    → HasRoom e
    → IsSound e
    → IsSound (acquire e make).1
unfolding acquire
acquire-IsSound e make keeps r s =
    activate-IsSound (allocate e).0 (allocate e).1 make keeps (allocate-IsAllocated e r s)
