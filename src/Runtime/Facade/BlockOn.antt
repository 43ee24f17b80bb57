-- ===== src/Runtime/Facade/BlockOn.antt =====
-- What `block_on` of src/runtime/runtime.hpp leaves of the thread's locals.
use rain.Base.{ℕ, ◌≡◌, none, ◌==◌, if◌then◌else◌, count}
use rain.Async.Loop.{Loop}
use rain.Runtime.Facade.{Locals}

-- The locals are cleared, and the cell is registered no more; other cells are as before.
abbrev pub IsCleared : ℕ → Locals → Locals → Type 0
IsCleared cell before after =
    (after.g_metrics ≡ none)
    × (after.g_thread_pool ≡ none)
    × ((i : ℕ) → count i after.registry ≡ (if i == cell then 0 else count i before.registry))
