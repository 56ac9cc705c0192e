-- ===== src/Flow/Channel.antt =====
-- Both ends of one window over a reliable channel: data frames one way, grants the other. The frames
-- and grants in flight are counted; they arrive in any order relative to each other.
pub mod Connection
pub mod Stream
