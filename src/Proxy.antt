-- ===== src/Proxy.antt =====
-- src/proxy/proxy.c, and the functions of src/network/connection.c that make system calls.
pub mod Lifecycle
pub mod Forward
pub mod Events
pub mod Respond
pub mod Write
pub mod Request
pub mod Read
pub mod Accept
pub mod Loop
pub mod Cleanup
