-- ===== src/Async/Timer/Wheel/Location.antt =====
-- Where an id stands in the slots of src/async/timer.hpp, and how the cascades move it.
use rain.Base.{
  ℕ, ◌+◌, ◌≡◌, ◌⊎◌, ◌≢◌, List, [], ◌∷◌, none, some, arith, Option-cases, ap, inl, inr, ◌==◌,
  if◌then◌else◌, Bool-cases, ◌&&◌, count, count-append, ==→eq,
}
use rain.Async.Timer.Wheel.History.{place-SameFrame, same}
use rain.Async.Timer.Slotmap.{TimerEntry, Entries, lookup}
use rain.Async.Timer.Wheel.{
  Wheel, place, route, ticks_between, replace_all, cascade_one, current_ids, take_current,
}

-- A place in the wheel: a level and a slot.
abbrev pub Place : Type 0
Place = ℕ × ℕ

-- Where `place` puts a deadline.
abbrev pub routed : Wheel → ℕ → Place
routed w deadline =
    route (ticks_between w.current_time deadline) (ticks_between w.start_time deadline)

abbrev pub slot_of : Wheel → ℕ → ℕ → List ℕ
slot_of w l s = (w.levels l).slots s

pub count-place :
    (id j deadline : ℕ) (w : Wheel) (l s : ℕ)
    → count id (slot_of (place j deadline w) l s)
      ≡ count id (slot_of w l s)
        + (if j == id && ((routed w deadline).0 == l && (routed w deadline).1 == s) then 1 else 0)
unfolding place
count-place id j deadline w l s = ground (arith, count-append id (slot_of w l s) (j ∷ []))

differ :
    (es : Entries) (entry : TimerEntry) (j id : ℕ)
    → lookup es j ≡ none
    → lookup es id ≡ some entry
    → j ≢ id
differ es entry j id e found same_id = cc (ap (lookup es) same_id)

-- One id has one entry.
same_deadline :
    (j id : ℕ) (other entry : TimerEntry) (es : Entries)
    → lookup es j ≡ some other
    → lookup es id ≡ some entry
    → (j ≢ id) ⊎ (other ≡ entry)
same_deadline j id other entry es e found = elim (Bool-cases (j == id)) [
  | inl h ↦ inr (cc (ap (lookup es) (==→eq j id h)))
  | inr h ↦ inl (ground arith)
]

-- Placing ids anew adds a valid one to its place as often as it stands in the list.
count-replace_all :
    (ids : List ℕ) (id : ℕ) (entry : TimerEntry) (w : Wheel) (l s : ℕ)
    → lookup w.entries id ≡ some entry
    → count id (slot_of (replace_all ids w) l s)
      ≡ count id (slot_of w l s)
        + (if (routed w entry.deadline).0 == l && (routed w entry.deadline).1 == s
            then count id ids
            else 0)
unfolding replace_all
count-replace_all [] id entry w l s found = ground arith
count-replace_all (j ∷ ids) id entry w l s found = elim (Option-cases (lookup w.entries j)) [
  | inl e ↦
      rw (e, replace_all)
        (ground
          (arith, count-replace_all ids id entry w l s found, differ w.entries entry j id e found))
  | inr (other, e) ↦
      let w' = place j other.deadline w in
      let kept = place-SameFrame j other.deadline {v = w} w (same w) in
      let found' : lookup w'.entries id ≡ some entry = rw kept.entries found in
      let route_eq : routed w' entry.deadline ≡ routed w entry.deadline =
        rw (kept.start, kept.now) in
      let ih = rw route_eq at (count-replace_all ids id entry w' l s found') in
      rw (e, replace_all)
        (ground (
          arith,
          ih,
          count-place id j other.deadline w l s,
          same_deadline j id other entry w.entries e found,
        ))
]

module _ (level id : ℕ) (entry : TimerEntry) (w : Wheel)
    (found : lookup w.entries id ≡ some entry) where
  -- A cascade empties the slot under the hand of its level and adds its ids to their new places.
  count-cascade_one :
      (l s : ℕ)
      → count id (slot_of (cascade_one level w) l s)
        ≡ (if level == l && (w.levels level).current_slot == s then 0 else count id (slot_of w l s))
          + (if (routed w entry.deadline).0 == l && (routed w entry.deadline).1 == s
              then count id (current_ids level w)
              else 0)
  unfolding cascade_one
  count-cascade_one l s =
      ground
        (arith, count-replace_all (current_ids level w) id entry (take_current level w) l s found)

-- The id stands once in the wheel, at this place.
abbrev pub IsAt : ℕ → Place → Wheel → Type 0
IsAt id p w = (l s : ℕ) → count id (slot_of w l s) ≡ (if p.0 == l && p.1 == s then 1 else 0)

-- Where an id at `p` is once a level has cascaded whose hand was at `hand`.
abbrev pub move : ℕ → ℕ → Place → Place → Place
move level hand target p = if p.0 == level && p.1 == hand then target else p

pub cascade_one-IsAt :
    (level id : ℕ) (entry : TimerEntry) (w : Wheel) (p : Place)
    → lookup w.entries id ≡ some entry
    → IsAt id p w
    → IsAt id
        (move level (w.levels level).current_slot (routed w entry.deadline) p)
        (cascade_one level w)
cascade_one-IsAt level id entry w p found at l s = ground (
  arith,
  count-cascade_one level id entry w found l s,
  at l s,
  at level (w.levels level).current_slot,
)
