-- ===== src/Examples.antt =====
-- Concrete runs: a kernel, buffers, pools and states that the theorems are applied to.
pub mod Net
pub mod Data
pub mod Pool
pub mod Handlers
pub mod Clients
pub mod Cli
pub mod Streams
pub mod Requests
pub mod Pairs
pub mod Whole
pub mod Responses
