-- ===== src/Protocol.antt =====
-- The wire protocol of the boards: backend/app/services/protocol/.
pub mod Bytes
pub mod Frames
pub mod Codec
pub mod Tests
