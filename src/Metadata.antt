-- ===== src/Metadata.antt =====
-- ts/src/metadata.ts: the multi-value map, its binary values and its validation.
pub mod Base64
pub mod Values
pub mod Validation
pub mod Join
mod Examples
