-- ===== src/Agent.antt =====
-- internal/agent: what runs on a node.
pub mod Wal
pub mod Gate
pub mod Tunnels
pub mod Frps
pub mod Firewall
pub mod Commands
pub mod Handshake
