-- ===== src/Net.antt =====
-- src/net: addresses, sockets with their awaiters, and streams over system calls and waits that are parameters.
pub mod Address
pub mod Awaiters
pub mod Sockets
pub mod StreamIo
pub mod Tcp
mod Tests
