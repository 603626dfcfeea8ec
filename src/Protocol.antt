-- ===== src/Protocol.antt =====
-- internal/protocol.
pub mod Resp
pub mod Handlers
pub mod Dispatch
