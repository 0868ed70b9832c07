-- ===== src/Protocol.antt =====
-- crates/tuyau-protocol: the frames that client and server exchange, and their codec.
pub mod Frame
pub mod Token
pub mod Codec
