-- ===== src/Server.antt =====
-- ts/src/server.ts: a peer's calls from their OPEN to their tombstones, and the replies it gets.
pub mod Tombs
pub mod Replies
pub mod Resets
pub mod Stream
pub mod Table
pub mod Admission
pub mod Dispatch
pub mod Sweep
pub mod Shutdown
mod Examples
mod Cases
