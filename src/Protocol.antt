-- ===== src/Protocol.antt =====
-- src/protocol.rs: the frames exchanged with the gateway and the lines of the upstream's stream.
pub mod Frames
pub mod Sse
