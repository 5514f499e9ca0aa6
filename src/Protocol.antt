-- ===== src/Protocol.antt =====
-- internal/protocol: the stream header, the ack byte and the payload frames.
pub mod Io
pub mod Varint
pub mod Header
pub mod Frame
pub mod Message
pub mod Control
pub mod Examples
