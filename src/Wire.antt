-- ===== src/Wire.antt =====
-- ts/src/wire.ts: the protobuf encoding of frames. A byte sequence is a list of numbers below 256.
pub mod Text
pub mod TwoByte
pub mod Writer
pub mod Reader
pub mod Varint
pub mod Message
pub mod Duration
pub mod Nested
pub mod MetadataCodec
pub mod Flags
pub mod Frames
mod Examples
