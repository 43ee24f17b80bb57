-- ===== src/Async/Timer/Slotmap/Lookup.antt =====
-- The entry table of src/async/timer.hpp seen as a map from ids to entries, and ids that are spent.
use rain.Base.{
  ℕ, ◌+◌, ◌%◌, ◌^◌, ◌≤◌, ◌<◌, ◌≡◌, refl, sym, ◌∙◌, ◌⊎◌, inl, true, List, [], ◌∷◌, none, some, arith,
  ◌==◌, if◌then◌else◌,
}
use rain.Async.Timer.Slotmap.{
  TimerEntry, Entries, encode_id, id_index, id_gen, lookup, allocate, allocate_from, activate,
  acquire, release,
}
use rain.Async.Timer.Slotmap.Ids.{encode_id_fields}
use rain.Async.Timer.Slotmap.Inv.{IsSound, HasRoom, IsAllocated, allocate-IsAllocated}

-- An id is its index and its generation.
id-ext : (i j : ℕ) → id_index i ≡ id_index j → id_gen i ≡ id_gen j → i ≡ j
id-ext i j p q = omega arith

pub lookup-release :
    (e : Entries) (id j : ℕ) → lookup (release id e) j ≡ (if id == j then none else lookup e j)
unfolding lookup release
lookup-release e id j = ground (arith, id-ext id j)

lookup-allocate_from :
    (e : Entries) (free : List ℕ) (j : ℕ) → lookup (allocate_from e free).1 j ≡ lookup e j
unfolding lookup allocate_from
lookup-allocate_from e [] j = ground arith
lookup-allocate_from e (x ∷ free) j = refl

lookup-activate :
    (index : ℕ) (e : Entries) (make : ℕ → TimerEntry) (j : ℕ)
    → IsAllocated index e
    → lookup (activate index e make).1 j ≡ (
        if (activate index e make).0 == j
        then some (make (activate index e make).0)
        else lookup e j)
unfolding lookup activate
lookup-activate index e make j a = ground (
  arith,
  a.vacant,
  a.in_range,
  encode_id_fields index (((e.slotmap index).generation + 1) % 2 ^ 64)
      (omega (arith, a.in_range, a.small)),
  a.fresh,
  id-ext (encode_id index (((e.slotmap index).generation + 1) % 2 ^ 64)) j,
)

pub lookup-acquire :
    (e : Entries) (make : ℕ → TimerEntry) (j : ℕ)
    → HasRoom e
    → IsSound e
    → lookup (acquire e make).1 j
      ≡ (if (acquire e make).0 == j then some (make (acquire e make).0) else lookup e j)
unfolding acquire allocate
lookup-acquire e make j r s =
    lookup-activate (allocate e).0 (allocate e).1 make j (allocate-IsAllocated e r s)
    ∙ rw (lookup-allocate_from e e.free_indices j)

-- A scheduled timer is found under its new id, a released id is looked up in vain, and every other id as before.
pub lookup_changes :
    (e : Entries) (make : ℕ → TimerEntry) (id j : ℕ)
    → HasRoom e
    → IsSound e
    → (lookup (acquire e make).1 j
        ≡ (if (acquire e make).0 == j then some (make (acquire e make).0) else lookup e j))
      × (lookup (release id e) j ≡ (if id == j then none else lookup e j))
lookup_changes e make id j r s = (lookup-acquire e make j r s, lookup-release e id j)

activate-fresh :
    (index : ℕ) (e : Entries) (make : ℕ → TimerEntry)
    → IsAllocated index e
    → lookup e (activate index e make).0 ≡ none
unfolding lookup activate
activate-fresh index e make a = ground (
  arith,
  a.vacant,
  encode_id_fields index (((e.slotmap index).generation + 1) % 2 ^ 64)
      (omega (arith, a.in_range, a.small)),
)

-- The id of a new timer was not valid before.
pub acquire-fresh :
    (e : Entries) (make : ℕ → TimerEntry)
    → HasRoom e
    → IsSound e
    → lookup e (acquire e make).0 ≡ none
unfolding acquire allocate
acquire-fresh e make r s =
    sym (lookup-allocate_from e e.free_indices _)
    ∙ activate-fresh (allocate e).0 (allocate e).1 make (allocate-IsAllocated e r s)

-- The table `e'` is a later state of `e`: generations only grow, and an entry becomes active only in a
-- new generation.
pub record IsLater (e e' : Entries) : Type 0 where
  pub grows : (i : ℕ) → (e.slotmap i).generation ≤ (e'.slotmap i).generation
  pub renews :
      (i : ℕ)
      → (e'.slotmap i).active ≡ true
      → ((e.slotmap i).active ≡ true) ⊎ ((e.slotmap i).generation < (e'.slotmap i).generation)

pub IsLater-refl : (e : Entries) → IsLater e e
IsLater-refl e = record { grows = λ i. omega arith; renews = λ i h. inl h }

pub IsLater-trans : {a b c : Entries} → IsLater a b → IsLater b c → IsLater a c
IsLater-trans p q = record {
  grows = λ i. omega (arith, p.grows i, q.grows i);
  renews = λ i h. ground (arith, p.renews i, q.renews i, p.grows i, q.grows i);
}

pub release-IsLater : (id : ℕ) (e : Entries) → IsLater e (release id e)
unfolding release
release-IsLater id e = record { grows = λ i. ground arith; renews = λ i h. ground arith }

allocate_from-IsLater :
    (e : Entries) (free : List ℕ) → IsSound e → IsLater e (allocate_from e free).1
unfolding allocate_from
allocate_from-IsLater e [] s = record {
  grows = λ i. ground (arith, s.untouched i);
  renews = λ i h. ground arith;
}
allocate_from-IsLater e (x ∷ free) s = record { grows = λ i. omega arith; renews = λ i h. inl h }

activate-IsLater :
    (index : ℕ) (e : Entries) (make : ℕ → TimerEntry)
    → IsAllocated index e
    → IsLater e (activate index e make).1
unfolding activate
activate-IsLater index e make a = record {
  grows = λ i. ground (arith, a.fresh);
  renews = λ i h. ground (arith, a.fresh);
}

pub acquire-IsLater :
    (e : Entries) (make : ℕ → TimerEntry) → HasRoom e → IsSound e → IsLater e (acquire e make).1
unfolding acquire allocate
acquire-IsLater e make r s =
    IsLater-trans (allocate_from-IsLater e e.free_indices s)
      (activate-IsLater (allocate e).0 (allocate e).1 make (allocate-IsAllocated e r s))

-- An id that was handed out: its generation has come.
abbrev pub IsIssued : ℕ → Entries → Type 0
IsIssued id e = id_gen id ≤ (e.slotmap (id_index id)).generation

-- An id that is no longer valid never becomes valid again.
pub lookup-later :
    (id : ℕ) {e e' : Entries}
    → IsSound e
    → IsLater e e'
    → IsIssued id e
    → lookup e id ≡ none
    → lookup e' id ≡ none
unfolding lookup
lookup-later id {e} {e'} s l h gone =
    ground (arith, s.unused (id_index id), l.grows (id_index id), l.renews (id_index id))

-- The id of a new timer was not handed out before, and is now.
acquire_issue :
    (index : ℕ) (e : Entries) (make : ℕ → TimerEntry)
    → IsAllocated index e
    → ((e.slotmap index).generation < id_gen (activate index e make).0)
      × (id_index (activate index e make).0 ≡ index)
      × IsIssued (activate index e make).0 (activate index e make).1
unfolding activate
acquire_issue index e make a = ground (
  arith,
  a.fresh,
  encode_id_fields index (((e.slotmap index).generation + 1) % 2 ^ 64)
      (omega (arith, a.in_range, a.small)),
)

allocate_from-generation :
    (e : Entries) (free : List ℕ) (i : ℕ)
    → IsSound e
    → ((allocate_from e free).1.slotmap i).generation ≡ (e.slotmap i).generation
unfolding allocate_from
allocate_from-generation e [] i s = ground (arith, s.untouched i)
allocate_from-generation e (x ∷ free) i s = refl

pub acquire-issues :
    (e : Entries) (make : ℕ → TimerEntry)
    → HasRoom e
    → IsSound e
    → ¬ IsIssued (acquire e make).0 e × IsIssued (acquire e make).0 (acquire e make).1
unfolding acquire allocate
acquire-issues e make r s =
    let i = acquire_issue (allocate e).0 (allocate e).1 make (allocate-IsAllocated e r s) in
    (
      λ old. absurd (
          omega (
            arith,
            i.0,
            rw i.1 at old,
            allocate_from-generation e e.free_indices (allocate e).0 s,
          )),
      i.2,
    )
