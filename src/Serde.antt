-- ===== src/Serde.antt =====
-- include/ncaf/internal/serialization.h: bytes, buffers, and the messages of the protocol.
pub mod Bytes
pub mod Buffer
pub mod Hex
pub mod Codec
pub mod Message
