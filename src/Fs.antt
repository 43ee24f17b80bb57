-- ===== src/Fs.antt =====
-- src/fs: files over system calls that are parameters.
pub mod System
pub mod Metadata
pub mod Detail
pub mod File
pub mod Ops
mod Tests
