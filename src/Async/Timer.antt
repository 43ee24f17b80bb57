-- ===== src/Async/Timer.antt =====
-- src/async/timer.hpp, HierarchicalTimerWheel. Times are nanoseconds since the clock's epoch, durations
-- handed to `schedule` are not negative, and sizes of vectors do not wrap. A vector with a known size
-- is a map from its indices. `free_indices_` has its back first.
pub mod Slotmap
pub mod Wheel
pub mod Queries
mod Tests
