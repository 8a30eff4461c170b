-- ===== src/Codec.antt =====
-- The pipelines of src/codec: frames to messages, and messages to frames.
pub mod Fragment
pub mod Defragment
pub mod Body
pub mod Config
pub mod Framed
