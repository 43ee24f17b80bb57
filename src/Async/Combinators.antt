-- ===== src/Async/Combinators.antt =====
-- src/async/combinators.hpp. A task that runs to its end is a function on a world, with its result; the
-- racers of when_all, when_any and timeout are steps of a shared state, in the order in which they finish.
pub mod Pipes
pub mod Retry
pub mod WhenAll
pub mod WhenAny
pub mod Timeout
mod Tests
use rain.Base.{ℕ, zero, suc, List, [], ◌∷◌, ◌++◌}
use rain.Core.{SystemError, made, Errc}

-- `make_timed_out_error`, and `make_cancelled_error` of src/async/task.hpp.
abbrev pub timed_out_error : SystemError
timed_out_error = made Errc.timed_out "operation timed out"

abbrev pub cancelled_error : SystemError
cancelled_error = made Errc.operation_canceled "task cancelled"

-- The numbers below `n`.
abbrev pub range : ℕ → List ℕ
range zero = []
range (suc n) = range n ++ (n ∷ [])
