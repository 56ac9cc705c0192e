-- ===== src/Config.antt =====
-- The resolved settings of ts/src/limits.ts and ts/src/timing.ts.
pub mod Limits
pub mod Timing
mod Examples
