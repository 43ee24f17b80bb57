-- ===== src/Async/Reactor.antt =====
-- src/async/io_reactor.hpp, EpollReactor. The kernel is a parameter: a state and the calls on it.
-- Descriptors are integers, and `slots_` is a map from its indices with its size. Handles and the
-- pointers to results and states are addresses, `none` if null.
pub mod Slots
pub mod Poll
pub mod Register
pub mod Awaiters
pub mod Decided
pub mod Delivery
pub mod Registration
mod Tests
