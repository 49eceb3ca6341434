-- ===== src/Protocol.antt =====
-- The package protocol: messages, their validation and the framing of the presenter socket.
pub mod Types
pub mod Validate
pub mod Frame
