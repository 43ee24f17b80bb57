-- ===== src/Fs/Detail/Positions.antt =====
-- `read_at_fd_sync` and `write_at_fd_sync` of src/fs/detail.hpp.
pub mod ReadAt
pub mod WriteAt
