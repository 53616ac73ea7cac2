-- ===== src/Protocol.antt =====
-- internal/protocol: the report of an agent to the panel and the signature of a message.
pub mod Message
pub mod Sign
mod Tests
