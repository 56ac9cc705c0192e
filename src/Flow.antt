-- ===== src/Flow.antt =====
-- Flow control of reliable mode, ts/src/util.ts: the windows of the sender and of the receiver.
pub mod Sender
pub mod Wakeups
pub mod Both
pub mod Acquire
pub mod Alone
pub mod Receiver
pub mod Ledger
pub mod Channel
mod Examples
