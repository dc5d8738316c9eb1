-- ===== src/Relay.antt =====
-- What passes through a pair of connections (src/proxy/proxy.c): the bytes that are read from one
-- side and written to the other, in the order of the kernel's calls.
pub mod Traffic
pub mod Yields
pub mod Flow
pub mod Silent
pub mod Close
pub mod Bytes
pub mod Steps
pub mod Read
pub mod Write
pub mod WriteBack
pub mod Event
pub mod Reach
pub mod Sending
pub mod Drained
pub mod Sent
