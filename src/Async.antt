-- ===== src/Async.antt =====
-- src/async: the per-core event loop and what it is made of.
pub mod Concepts
pub mod Task
pub mod Timer
pub mod Reactor
pub mod Race
pub mod Combinators
pub mod Loop
pub mod Signal
