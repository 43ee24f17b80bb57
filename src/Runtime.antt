-- ===== src/Runtime.antt =====
-- src/runtime: the threads that run event loops, and the execution of jobs beside them.
pub mod Bridge
pub mod Executor
pub mod Facade
pub mod ThreadPool
