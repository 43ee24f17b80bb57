-- ===== src/Async/Timer/Slotmap.antt =====
-- src/async/timer.hpp: timer ids and the dense table of entries, `slotmap_`, with the stack of its
-- free indices and the number of active entries.
pub mod Ids
pub mod Inv
pub mod Lookup
use Prim.Native.Nat.{bit_or}
use rain.Base.{
  ℕ, suc, ◌+◌, ◌-◌, ◌*◌, ◌/◌, ◌%◌, ◌^◌, Bool, true, false, not, ◌&&◌, ◌||◌, List, [], ◌∷◌, Option,
  none, some, leb, ltb, ◌==◌, if◌then◌else◌, update,
}
use rain.Async.Concepts.{WaitState}

-- `handle` and `state` are null if `none`.
pub record TimerEntry : Type 0 where
  pub id : ℕ
  pub deadline : ℕ
  pub handle : Option ℕ
  pub state : Option ℕ
  pub completion : WaitState

pub record Slot : Type 0 where
  pub entry : TimerEntry
  pub generation : ℕ
  pub active : Bool

pub record Entries : Type 0 where
  pub slotmap : ℕ → Slot
  pub slotmap_size : ℕ
  pub free_indices : List ℕ
  pub active_count : ℕ

abbrev pub empty_slot : Slot
empty_slot = record {
  entry = record {
    id = 0;
    deadline = 0;
    handle = none;
    state = none;
    completion = WaitState.timed_out;
  };
  generation = 0;
  active = false;
}

abbrev pub no_entries : Entries
no_entries = record {
  slotmap = λ i. empty_slot;
  slotmap_size = 0;
  free_indices = [];
  active_count = 0;
}

-- `(gen << kIndexBits) | index`, `id & kIndexMask`, `id >> kIndexBits`, with `kIndexBits` 24.
unfoldable pub encode_id : ℕ → ℕ → ℕ
encode_id index gen = bit_or (gen * 2 ^ 24 % 2 ^ 64) index

abbrev pub id_index : ℕ → ℕ
id_index id = id % 2 ^ 24

abbrev pub id_gen : ℕ → ℕ
id_gen id = id / 2 ^ 24

-- The test that `lookup`, `cancel` and `release` share: in range, active, of the id's generation.
abbrev pub is_valid : Entries → ℕ → Bool
is_valid e id =
    ltb (id_index id) e.slotmap_size
    && ((e.slotmap (id_index id)).active && (e.slotmap (id_index id)).generation == id_gen id)

unfoldable pub lookup : Entries → ℕ → Option TimerEntry
lookup e id = if is_valid e id then some (e.slotmap (id_index id)).entry else none

-- An index from the free stack, or a new one at the end of the table.
allocate_from : Entries → List ℕ → ℕ × Entries
allocate_from e [] = (
  e.slotmap_size % 2 ^ 32,
  record e {
    slotmap = update e.slotmap e.slotmap_size empty_slot;
    slotmap_size = e.slotmap_size + 1;
  },
)
allocate_from e (i ∷ rest) = (i, record e { free_indices = rest })

unfoldable pub allocate : Entries → ℕ × Entries
unfolding allocate_from
allocate e = allocate_from e e.free_indices

-- The next generation of the index takes it over.
unfoldable pub activate : ℕ → Entries → (ℕ → TimerEntry) → ℕ × Entries
unfolding encode_id
activate index e make =
    let gen = ((e.slotmap index).generation + 1) % 2 ^ 64 in
    let id = encode_id index gen in
    (
      id,
      record e {
        slotmap =
            update e.slotmap index (record { entry = make id; generation = gen; active = true });
        active_count = e.active_count + 1;
      },
    )

-- The part of `schedule_at` before `place`.
unfoldable pub acquire : Entries → (ℕ → TimerEntry) → ℕ × Entries
unfolding allocate activate
acquire e make = let (index, e') = allocate e in activate index e' make

-- The entry of an index becomes inactive and the index free.
abbrev pub retire : ℕ → Entries → Entries
retire index e = record e {
  slotmap = update e.slotmap index (record (e.slotmap index) { active = false });
  free_indices = index ∷ e.free_indices;
  active_count = e.active_count - 1;
}

unfoldable pub cancel : ℕ → Entries → Bool × Entries
cancel id e =
    if leb e.slotmap_size (id_index id)
    then (false, e)
    else if not (e.slotmap (id_index id)).active
        || not ((e.slotmap (id_index id)).generation == id_gen id)
    then (false, e)
    else (true, retire (id_index id) e)

unfoldable pub release : ℕ → Entries → Entries
release id e = if is_valid e id then retire (id_index id) e else e
