-- ===== src/Async/Concepts.antt =====
-- src/async/concepts.hpp: wait states and the heap of them that timers and I/O waits share.
use rain.Base.{ℕ, Bool, true, false}

pub data WaitState : Type 0 where
  pending ready timed_out cancelled : WaitState

abbrev pub is_pending : WaitState → Bool
is_pending WaitState.pending = true
is_pending s = false

-- `WaitState*` is an address; the cells that awaiters own, by address.
abbrev pub States : Type 0
States = ℕ → WaitState

-- `coroutine_handle::done()` of each handle, at the time of a call.
abbrev pub Done : Type 0
Done = ℕ → Bool
